-- ===== src/Identity/Purging.antt =====
-- What the sweeps of `InMemoryRefreshTokenStore` (crates/module-identity/src/stores.rs) leave to be
-- seen: nothing. The store answers as a plain map of expiry times that is never swept.
use rust_api_modular_monolit.Base.{
  ℕ, ◌+◌, ◌≤◌, ◌≡◌, refl, sym, ap, ◌∙◌, String, Bool, true, List, [], ◌∷◌, Option, none, some, ltb,
  ◌==◌, eq_string, if◌then◌else◌, arith, filter_some, inl, inr, Bool-cases, if_both,
}
use rust_api_modular_monolit.Base.Map.{
  get, insert, remove, get-insert, get-remove, get-retain, IsMap, insert-IsMap, remove-IsMap,
  retain-IsMap, keep_entry,
}
use rust_api_modular_monolit.Identity.Sessions.{
  RefreshTokens, key, is_later, purge_expired_as_of, purge_if_due, store, validate, take_token,
  revoke, Operation, stores, validates, takes, revokes, purges, perform, perform_all, timestamp,
}

-- The specification: when each key expires, if it is there.
abbrev pub Expiries : Type 0
Expiries = String → Option ℕ

unfoldable pub specified : ℕ → Operation → Expiries → Bool × Expiries
specified now (stores u t expires) m = (true, λ k. if key u t == k then some expires else m k)
specified now (validates u t) m = (is_later now (m (key u t)), m)
specified now (takes u t) m = (is_later now (m (key u t)), λ k. if key u t == k then none else m k)
specified now (revokes u t) m = (true, λ k. if key u t == k then none else m k)
specified now purges m = (true, m)

unfoldable pub specified_all : List (ℕ × Operation) → Expiries → List Bool
specified_all [] m = []
specified_all ((now, operation) ∷ operations) m =
    let (answer, m') = specified now operation m in answer ∷ specified_all operations m'

-- The clock does not go back.
abbrev pub IsOrdered : ℕ → List (ℕ × Operation) → Type 0
IsOrdered t [] = Unit
IsOrdered t ((now, operation) ∷ operations) = (t ≤ now) × IsOrdered now operations

-- The store and the map agree on every key that has not expired by a time.
unfoldable pub Agree : ℕ → RefreshTokens → Expiries → Type 0
Agree t s m = (k : String) → filter_some (ltb t) (get k s.tokens) ≡ filter_some (ltb t) (m k)

filter_later :
    (t now : ℕ) (a b : Option ℕ)
    → t ≤ now
    → filter_some (ltb t) a ≡ filter_some (ltb t) b
    → filter_some (ltb now) a ≡ filter_some (ltb now) b
filter_later t now none none le h = refl
filter_later t now none (some y) le h = ground arith
filter_later t now (some x) none le h = ground arith
filter_later t now (some x) (some y) le h = ground arith

is_later-filter : (now : ℕ) (a : Option ℕ) → is_later now a ≡ is_later now (filter_some (ltb now) a)
is_later-filter now none = refl
is_later-filter now (some x) = ground arith

Agree-later : (t now : ℕ) (s : RefreshTokens) (m : Expiries) → t ≤ now → Agree t s m → Agree now s m
unfolding Agree
Agree-later t now s m le h k = filter_later t now (get k s.tokens) (m k) le (h k)

Agree-answer :
    (now : ℕ) (k : String) (s : RefreshTokens) (m : Expiries)
    → Agree now s m
    → is_later now (get k s.tokens) ≡ is_later now (m k)
unfolding Agree
Agree-answer now k s m h =
    is_later-filter now (get k s.tokens) ∙ ap (is_later now) (h k) ∙ sym (is_later-filter now (m k))

filter_kept :
    (now : ℕ) (k : String) (a : Option ℕ)
    → filter_some (ltb now) (keep_entry (λ j expires. ltb now expires) k a)
      ≡ filter_some (ltb now) a
filter_kept now k none = refl
filter_kept now k (some x) = ground arith

purge-Agree :
    (now : ℕ) (s : RefreshTokens) (m : Expiries)
    → IsMap s.tokens
    → Agree now s m
    → Agree now (purge_expired_as_of now s).1 m
unfolding Agree purge_expired_as_of
purge-Agree now s m unique h k =
    ap (filter_some (ltb now)) (get-retain (λ j expires. ltb now expires) k s.tokens unique)
    ∙ filter_kept now k (get k s.tokens)
    ∙ h k

-- What a sweep that may be due keeps.
IsSwept : ℕ → Expiries → RefreshTokens → Type 0
IsSwept now m s = IsMap s.tokens × Agree now s m

purge_if_due-IsSwept :
    (now : ℕ) (s : RefreshTokens) (m : Expiries)
    → IsMap s.tokens
    → Agree now s m
    → IsSwept now m (purge_if_due now s)
unfolding purge_if_due IsSwept purge_expired_as_of Agree
purge_if_due-IsSwept now s m unique h =
    if_both (λ (r : RefreshTokens). IsMap r.tokens × Agree now r m)
      (ltb (timestamp now) (s.last_purge + s.purge_interval_seconds)) s
      (purge_expired_as_of now (record s { last_purge = timestamp now })).1 (unique, h)
      (
        retain-IsMap _ s.tokens unique,
        purge-Agree now (record s { last_purge = timestamp now }) m unique h,
      )

remove-Agree :
    (now : ℕ) (gone : String) (s : RefreshTokens) (m : Expiries)
    → Agree now s m
    → Agree now (record s { tokens = remove gone s.tokens }) (λ k. if gone == k then none else m k)
unfolding Agree
remove-Agree now gone s m h k = elim (Bool-cases (gone == k)) [
  | inl e ↦ rw (get-remove gone k s.tokens, e) refl
  | inr e ↦ rw (get-remove gone k s.tokens, e) (h k)
]

insert-Agree :
    (now expires : ℕ) (new : String) (s : RefreshTokens) (m : Expiries)
    → Agree now s m
    → Agree now
        (record s { tokens = insert new expires s.tokens })
        (λ k. if new == k then some expires else m k)
unfolding Agree
insert-Agree now expires new s m h k = elim (Bool-cases (new == k)) [
  | inl e ↦ rw (get-insert new k expires s.tokens, e) refl
  | inr e ↦ rw (get-insert new k expires s.tokens, e) (h k)
]

perform-IsSwept :
    (now : ℕ) (operation : Operation) (s : RefreshTokens) (m : Expiries)
    → IsMap s.tokens
    → Agree now s m
    → ((perform now operation s).0 ≡ (specified now operation m).0)
      × IsSwept now (specified now operation m).1 (perform now operation s).1
unfolding perform specified IsSwept store validate take_token revoke purge_expired_as_of
perform-IsSwept now (stores u t expires) s m unique h =
    let swept = purge_if_due-IsSwept now s m unique h in
    (
      refl,
      (
        insert-IsMap (key u t) expires (purge_if_due now s).tokens swept.0,
        insert-Agree now expires (key u t) (purge_if_due now s) m swept.1,
      ),
    )
perform-IsSwept now (validates u t) s m unique h = (Agree-answer now (key u t) s m h, (unique, h))
perform-IsSwept now (takes u t) s m unique h = (
  Agree-answer now (key u t) s m h,
  (remove-IsMap (key u t) s.tokens unique, remove-Agree now (key u t) s m h),
)
perform-IsSwept now (revokes u t) s m unique h =
    (refl, (remove-IsMap (key u t) s.tokens unique, remove-Agree now (key u t) s m h))
perform-IsSwept now purges s m unique h =
    (refl, (retain-IsMap _ s.tokens unique, purge-Agree now s m unique h))

-- The sweeps are not seen: as long as the clock does not go back, the answers to any series of
-- operations, the sweeps that fall due among them included, are those of a map of expiry times
-- from which nothing is ever swept. The two agree at the start on what has not expired.
pub perform_all-specified :
    (t : ℕ) (operations : List (ℕ × Operation)) (s : RefreshTokens) (m : Expiries)
    → IsMap s.tokens
    → IsOrdered t operations
    → Agree t s m
    → (perform_all operations s).0 ≡ specified_all operations m
unfolding perform_all specified_all IsSwept
perform_all-specified t [] s m unique ordered h = refl
perform_all-specified t ((now, operation) ∷ operations) s m unique ordered h =
    let (answer, swept) =
      perform-IsSwept now operation s m unique (Agree-later t now s m ordered.0 h) in
    let rest =
      perform_all-specified now operations (perform now operation s).1 (specified now operation m).1
        swept.0 ordered.1 swept.1 in
    cc (answer, rest)
