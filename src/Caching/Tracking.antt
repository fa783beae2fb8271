-- ===== src/Caching/Tracking.antt =====
-- That the tag index of crates/shared-kernel/src/caching/facade.rs follows the entries: each entry
-- is registered, with its generation, under each of its tags.
use rust_api_modular_monolit.Base.{
  ℕ, suc, ◌<◌, ◌≤◌, ◌≡◌, refl, sym, ap, String, Bool, true, false, List, [], ◌∷◌, ◌++◌, Option,
  none, some, arith, ◌==◌, eq_nat, eq_string, beq_self, nat_eq, contains, inl, inr, Bool-cases,
  Option-cases, All, All-imp,
}
use rust_api_modular_monolit.Base.Map.{get, insert, remove, get-insert, get-remove}
use rust_api_modular_monolit.Caching.{
  TagIndex, CachedEntry, CacheFacade, CacheEntryOptions, replaced, store, invalidate, new_entry,
  register, write, write_steps, invalidate_all,
}
use rust_api_modular_monolit.Caching.Index.{registered, registered-register_tags}

module _ {V : Type 0} where
  abbrev pub has_generation : ℕ → Option (CachedEntry V) → Bool
  has_generation generation none = false
  has_generation generation (some entry) = nat_eq entry.generation generation

  -- A removal that is not told of yet is older than the next generation, and is not that of the
  -- entry that its key has now.
  abbrev pub IsPast : ℕ → List (String × CachedEntry V) → String × CachedEntry V → Type 0
  IsPast next entries (key, entry) =
      (entry.generation < next) × (has_generation entry.generation (get key entries) ≡ false)

  pub record IsTracked (s : CacheFacade V) : Type 0 where
    pub tracked :
        (key tag : String) (entry : CachedEntry V)
        → get key s.entries ≡ some entry
        → contains entry.tags tag ≡ true
        → registered key tag s.tags ≡ some entry.generation
    pub drawn :
        (key : String) (entry : CachedEntry V)
        → get key s.entries ≡ some entry
        → entry.generation < s.next_generation
    pub past : All (IsPast s.next_generation s.entries) s.removed

  -- One more removal, and the entries under its key gone or replaced by a young one.
  IsPast-replaced :
      (next next' : ℕ) (key : String) (before after : List (String × CachedEntry V))
      (removed : List (String × CachedEntry V))
      → next ≤ next'
      → ((k : String) (g : ℕ)
          → g < next
          → has_generation g (get k before) ≡ false
          → has_generation g (get k after) ≡ false)
      → ((entry : CachedEntry V) → get key before ≡ some entry → IsPast next' after (key, entry))
      → All (IsPast next before) removed
      → All (IsPast next' after) (replaced key (get key before) ++ removed)
  IsPast-replaced next next' key before after removed grows kept new h =
      let old =
        All-imp (IsPast next before) (IsPast next' after)
          (λ r p. (omega (arith, p.0), kept r.0 r.1.generation p.0 p.1)) removed h in
      elim (Option-cases (get key before)) [
        | inl e ↦ rw e old
        | inr (entry, e) ↦ rw e (new entry e, old)
      ]

  pub invalidate-IsTracked :
      (key : String) (s : CacheFacade V) → IsTracked s → IsTracked (invalidate key s)
  unfolding invalidate
  invalidate-IsTracked key s h = record {
    tracked =
        λ k tag entry there. h.tracked k tag entry (ground (arith, get-remove key k s.entries));
    drawn = λ k entry there. h.drawn k entry (ground (arith, get-remove key k s.entries));
    past =
        IsPast-replaced s.next_generation s.next_generation key s.entries (remove key s.entries)
          s.removed (omega arith) (λ k g lt no. ground (arith, get-remove key k s.entries))
          (λ entry there.
            (h.drawn key entry there, ground (arith, beq_self key, get-remove key key s.entries)))
          h.past;
  }

  pub write-IsTracked :
      (jitter : ℕ → ℕ) (key : String) (value : V) (options : CacheEntryOptions) (s : CacheFacade V)
      → IsTracked s
      → IsTracked (write jitter key value options s)
  unfolding write write_steps store register new_entry
  write-IsTracked jitter key value options s h =
      let new = new_entry jitter s value options in
      record {
        tracked = λ k tag entry there carries. elim (Bool-cases (key == k)) [
          | inl e ↦
              let same : new ≡ entry = ground (arith, get-insert key k new s.entries) in
              let its_tags : options.tags ≡ entry.tags = ap (λ e. e.tags) same in
              let its_generation : s.next_generation ≡ entry.generation =
                ap (λ e. e.generation) same in
              rw
                (
                  registered-register_tags s.tags key k tag options.tags s.next_generation,
                  e,
                  its_tags,
                  carries,
                )
                (ap some its_generation)
          | inr e ↦
              rw (registered-register_tags s.tags key k tag options.tags s.next_generation, e)
                (h.tracked k tag entry (ground (arith, get-insert key k new s.entries)) carries)
        ];
        drawn = λ k entry there. elim (Bool-cases (key == k)) [
          | inl e ↦
              let same : new ≡ entry = ground (arith, get-insert key k new s.entries) in
              rw (sym same) (omega arith)
          | inr e ↦ omega (arith, h.drawn k entry (ground (arith, get-insert key k new s.entries)))
        ];
        past =
            IsPast-replaced s.next_generation (suc s.next_generation) key s.entries
              (insert key new s.entries) s.removed (omega arith)
              (λ k g lt no. ground (arith, get-insert key k new s.entries))
              (λ entry there. (
                omega (arith, h.drawn key entry there),
                ground (
                  arith,
                  h.drawn key entry there,
                  beq_self key,
                  get-insert key key new s.entries,
                ),
              ))
              h.past;
      }

  pub invalidate_all-tags :
      (keys : List (String × ℕ)) (s : CacheFacade V) → (invalidate_all keys s).tags ≡ s.tags
  unfolding invalidate_all invalidate
  invalidate_all-tags [] s = refl
  invalidate_all-tags ((key, g) ∷ keys) s = invalidate_all-tags keys (invalidate key s)

  pub invalidate_all-IsTracked :
      (keys : List (String × ℕ)) (s : CacheFacade V)
      → IsTracked s
      → IsTracked (invalidate_all keys s)
  unfolding invalidate_all
  invalidate_all-IsTracked [] s h = h
  invalidate_all-IsTracked ((key, g) ∷ keys) s h =
      invalidate_all-IsTracked keys (invalidate key s) (invalidate-IsTracked key s h)

  get-invalidate_all :
      (key : String) (keys : List (String × ℕ)) (s : CacheFacade V)
      → get key s.entries ≡ none
      → get key (invalidate_all keys s).entries ≡ none
  unfolding invalidate_all invalidate
  get-invalidate_all key [] s h = h
  get-invalidate_all key ((k, g) ∷ keys) s h =
      get-invalidate_all key keys (invalidate k s) (ground (arith, get-remove k key s.entries))

  -- A key that is invalidated has no entry.
  pub invalidate_all-none :
      (key : String) (generation : ℕ) (keys : List (String × ℕ)) (s : CacheFacade V)
      → get key keys ≡ some generation
      → get key (invalidate_all keys s).entries ≡ none
  unfolding invalidate_all invalidate get
  invalidate_all-none key generation [] s h = cc
  invalidate_all-none key generation ((k, g) ∷ keys) s h = elim (Bool-cases (k == key)) [
    | inl e ↦
        get-invalidate_all key keys (invalidate k s) (ground (arith, get-remove k key s.entries))
    | inr e ↦ invalidate_all-none key generation keys (invalidate k s) (rw e at h)
  ]

  -- The index is emptied first and the entries then, but the entries do not depend on the index.
  pub invalidate_all-apart :
      (keys : List (String × ℕ)) (index : TagIndex) (s : CacheFacade V)
      → invalidate_all keys (record s { tags = index })
        ≡ record (invalidate_all keys s) { tags = index }
  unfolding invalidate_all invalidate
  invalidate_all-apart [] index s = refl
  invalidate_all-apart ((key, g) ∷ keys) index s =
      invalidate_all-apart keys index (invalidate key s)
