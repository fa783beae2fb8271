-- ===== src/Traffic/Isolation.antt =====
-- Each partition of the limiter answers as a limiter of its own: neither other partitions nor
-- sweeps are seen.
use rust_api_modular_monolit.Base.{
  ℕ, ◌≤◌, ◌≡◌, refl, sym, ap, subst, ◌∙◌, String, true, false, List, [], ◌∷◌, Option, none, some,
  arith, ◌==◌, eq_string, if◌then◌else◌, get_or, Bool-cases, inl, inr,
}
use rust_api_modular_monolit.Base.Map.{
  get, insert, IsMap, get-insert, get-retain, insert-IsMap, retain-IsMap, keep_entry, AllValues,
  insert-AllValues, retain-AllValues, get-AllValues,
}
use rust_api_modular_monolit.Traffic.{
  RateLimitOptions, RateLimiter, Window, Arrival, Admission, Call, fresh, reopen, decide, admit,
  run, is_kept, sweep_if_due, sweep_closed_windows_as_of, Follows, Fits, WithinLimits, IsValid,
}
use rust_api_modular_monolit.Traffic.Solo.{current, solo, reopen-WithinLimits, decide-WithinLimits}

-- From `t` on, a call finds the same entry in both.
abbrev pub Alike : RateLimitOptions → ℕ → Option Window → Option Window → Type 0
Alike o t a b = (now : ℕ) → t ≤ now → current o now a ≡ current o now b

keep_entry-Alike :
    (o : RateLimitOptions) (t : ℕ) (p : String) (w : Option Window)
    → Alike o t (keep_entry (is_kept o t) p w) w
unfolding is_kept reopen
keep_entry-Alike o t p none now h = refl
keep_entry-Alike o t p (some w) now h = ground arith

sweep_if_due-options : (t : ℕ) (l : RateLimiter) → (sweep_if_due t l).options ≡ l.options
unfolding sweep_if_due sweep_closed_windows_as_of
sweep_if_due-options t l = ground arith

-- A sweep drops no entry that a later call could tell from a fresh one.
pub sweep_if_due-Alike :
    (t : ℕ) (l : RateLimiter) (p : String)
    → IsMap l.windows
    → Alike l.options t (get p (sweep_if_due t l).windows) (get p l.windows)
unfolding sweep_if_due sweep_closed_windows_as_of
sweep_if_due-Alike t l p m now h = ground (
  arith,
  get-retain (is_kept l.options t) p l.windows,
  keep_entry-Alike l.options t p (get p l.windows) now,
)

sweep_if_due-IsValid : (t : ℕ) (l : RateLimiter) → IsValid l → IsValid (sweep_if_due t l)
unfolding sweep_if_due sweep_closed_windows_as_of
sweep_if_due-IsValid t l v = ground (
  arith,
  retain-IsMap (is_kept l.options t) l.windows,
  retain-AllValues (WithinLimits l.options) (is_kept l.options t) l.windows,
)

-- One call: the partition's own limiter decides, and the others keep what they had.
admit-solo :
    (l : RateLimiter) (p : String) (now : ℕ) (a : Arrival)
    → IsMap l.windows
    → (admit l p now a).0 ≡ (decide l.options a (current l.options now (get p l.windows))).0
unfolding admit
admit-solo l p now a m =
    ap (λ w. (decide l.options a w).0) (sweep_if_due-Alike now l p m now (omega arith))

admit-get :
    (l : RateLimiter) (p q : String) (now : ℕ) (a : Arrival)
    → get q (admit l p now a).1.windows ≡ (
        if p == q
        then some
            (decide l.options a (current l.options now (get p (sweep_if_due now l).windows))).1
        else get q (sweep_if_due now l).windows)
unfolding admit
admit-get l p q now a = get-insert p q _ (sweep_if_due now l).windows

admit-options :
    (l : RateLimiter) (p : String) (now : ℕ) (a : Arrival) → (admit l p now a).1.options ≡ l.options
unfolding admit
admit-options l p now a = sweep_if_due-options now l

sweep_if_due-IsMap : (t : ℕ) (l : RateLimiter) → IsMap l.windows → IsMap (sweep_if_due t l).windows
unfolding sweep_if_due sweep_closed_windows_as_of
sweep_if_due-IsMap t l m = ground (arith, retain-IsMap (is_kept l.options t) l.windows)

admit-IsMap :
    (l : RateLimiter) (p : String) (now : ℕ) (a : Arrival)
    → IsMap l.windows
    → IsMap (admit l p now a).1.windows
unfolding admit
admit-IsMap l p now a m = insert-IsMap p _ _ (sweep_if_due-IsMap now l m)

-- The calls on one partition, and the answers to them.
abbrev pub calls_on : String → List Call → List (ℕ × Arrival)
calls_on p [] = []
calls_on p (c ∷ cs) = if c.partition == p then (c.now, c.arrival) ∷ calls_on p cs else calls_on p cs

abbrev pub answers_on : String → List Call → List Admission → List Admission
answers_on p (c ∷ cs) (a ∷ as') =
    if c.partition == p then a ∷ answers_on p cs as' else answers_on p cs as'
answers_on p _ _ = []

Alike-later :
    (o : RateLimitOptions) (t u : ℕ) (a b : Option Window) → t ≤ u → Alike o t a b → Alike o u a b
Alike-later o t u a b h e now k = e now (omega arith)

module _ (o : RateLimitOptions) (p : String) where
  admit_other-Alike :
      (l : RateLimiter) (c : Call) (w : Option Window) (t : ℕ)
      → l.options ≡ o
      → IsMap l.windows
      → t ≤ c.now
      → (c.partition == p) ≡ false
      → Alike o t (get p l.windows) w
      → Alike o c.now (get p (admit l c.partition c.now c.arrival).1.windows) w
  admit_other-Alike l c w t same m h miss alike now k =
      let gone : get p (admit l c.partition c.now c.arrival).1.windows
          ≡ get p (sweep_if_due c.now l).windows =
        admit-get l c.partition p c.now c.arrival ∙ rw miss refl in
      cc (gone, same, sweep_if_due-Alike c.now l p m now k, alike now (omega arith))

  admit_own :
      (l : RateLimiter) (c : Call) (w : Option Window) (t : ℕ)
      → l.options ≡ o
      → IsMap l.windows
      → t ≤ c.now
      → (c.partition == p) ≡ true
      → Alike o t (get p l.windows) w
      → get p (admit l c.partition c.now c.arrival).1.windows
        ≡ some (decide o c.arrival (current o c.now w)).1
  admit_own l c w t same m h hit alike =
      let own : c.partition ≡ p = (eq_string.equals_iff c.partition p).0 hit in
      let put : get p (admit l c.partition c.now c.arrival).1.windows
          ≡ some
              (decide l.options c.arrival
                (current l.options c.now (get c.partition (sweep_if_due c.now l).windows))).1 =
        admit-get l c.partition p c.now c.arrival ∙ rw hit refl in
      cc (put, own, same, sweep_if_due-Alike c.now l p m c.now (omega arith), alike c.now h)

  admit_answer :
      (l : RateLimiter) (c : Call) (w : Option Window) (t : ℕ)
      → l.options ≡ o
      → IsMap l.windows
      → t ≤ c.now
      → (c.partition == p) ≡ true
      → Alike o t (get p l.windows) w
      → (admit l c.partition c.now c.arrival).0 ≡ (decide o c.arrival (current o c.now w)).0
  admit_answer l c w t same m h hit alike =
      let own : c.partition ≡ p = (eq_string.equals_iff c.partition p).0 hit in
      cc (admit-solo l c.partition c.now c.arrival m, own, same, alike c.now h)

  run-Alike :
      (l : RateLimiter) (t : ℕ) (w : Option Window) (cs : List Call)
      → l.options ≡ o
      → IsMap l.windows
      → Follows t cs
      → Alike o t (get p l.windows) w
      → answers_on p cs (run l cs) ≡ solo o w (calls_on p cs)
  unfolding run solo
  run-Alike l t w [] same m f alike = refl
  run-Alike l t w (c ∷ cs) same m (h, f) alike = elim (Bool-cases (c.partition == p)) [
    | inl hit ↦ rw hit (
        cc (
          admit_answer l c w t same m h hit alike,
          run-Alike (admit l c.partition c.now c.arrival).1 c.now
              (some (decide o c.arrival (current o c.now w)).1) cs
              (admit-options l c.partition c.now c.arrival ∙ same)
              (admit-IsMap l c.partition c.now c.arrival m) f
              (λ now k. ap (current o now) (admit_own l c w t same m h hit alike)),
        ))
    | inr miss ↦ rw miss (
        run-Alike (admit l c.partition c.now c.arrival).1 c.now w cs
          (admit-options l c.partition c.now c.arrival ∙ same)
          (admit-IsMap l c.partition c.now c.arrival m) f
          (admit_other-Alike l c w t same m h miss alike))
  ]

-- For any schedule of calls, the answers to one partition's calls are those of a limiter that
-- serves that partition alone, from the entry that the partition has at the start: no other
-- partition's calls, and no sweep, changes an answer. The keys are distinct and time does not go
-- back.
pub run-solo :
    (l : RateLimiter) (p : String) (t : ℕ) (cs : List Call)
    → IsMap l.windows
    → Follows t cs
    → answers_on p cs (run l cs) ≡ solo l.options (get p l.windows) (calls_on p cs)
run-solo l p t cs m f = run-Alike l.options p l t (get p l.windows) cs refl m f (λ now k. refl)

entry-WithinLimits :
    (o : RateLimitOptions) (now : ℕ) (w : Option Window)
    → ((x : Window) → w ≡ some x → WithinLimits o x)
    → WithinLimits o (get_or (fresh now) w)
entry-WithinLimits o now none h = omega arith
entry-WithinLimits o now (some x) h = h x refl

IsValid-insert :
    (o : RateLimitOptions) (l : RateLimiter) (p : String) (w : Window)
    → l.options ≡ o
    → Fits l.options
    → IsMap l.windows
    → WithinLimits o w
    → AllValues (WithinLimits o) l.windows
    → IsValid (record l { windows = insert p w l.windows })
IsValid-insert o l p w same f m h all = record {
  fits = f;
  distinct = insert-IsMap p w l.windows m;
  bounded =
      subst (λ q. AllValues (WithinLimits q) (insert p w l.windows)) (sym same)
        (insert-AllValues (WithinLimits o) p w l.windows h all);
}

-- Every call keeps the keys distinct and each partition within its limits: never more permits used
-- in a window than `permit_limit`, never more waiters than `queue_limit`.
admit-IsValid :
    (l : RateLimiter) (p : String) (now : ℕ) (a : Arrival) → IsValid l → IsValid (admit l p now a).1
unfolding admit
admit-IsValid l p now a v =
    let s = sweep_if_due now l in
    let kept : IsValid s = sweep_if_due-IsValid now l v in
    let same : s.options ≡ l.options = sweep_if_due-options now l in
    let bounded : AllValues (WithinLimits l.options) s.windows =
      subst (λ o. AllValues (WithinLimits o) s.windows) same kept.bounded in
    IsValid-insert l.options s p (decide l.options a (current l.options now (get p s.windows))).1
      same kept.fits kept.distinct
      (decide-WithinLimits l.options a _ v.fits (
        reopen-WithinLimits l.options now _ (
          entry-WithinLimits l.options now (get p s.windows)
            (λ w. get-AllValues (WithinLimits l.options) p s.windows w bounded))))
      bounded
