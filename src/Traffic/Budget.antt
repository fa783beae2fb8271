-- ===== src/Traffic/Budget.antt =====
-- How many requests of one partition a window lets through.
use Prim.Native.Nat.{min}
use rust_api_modular_monolit.Base.{
  ℕ, suc, ◌+◌, ◌≤◌, ◌<◌, ◌≡◌, subst, sym, String, List, [], ◌∷◌, some, arith, length, All,
  eq_string,
}
use rust_api_modular_monolit.Base.Map.{get, get-AllValues}
use rust_api_modular_monolit.Traffic.{
  RateLimitOptions, RateLimiter, Window, Arrival, new, queued, Admission, admitted, wait, refused,
  Call, decide, run, Follows, Fits, WithinLimits, IsValid,
}
use rust_api_modular_monolit.Traffic.Solo.{solo, reopen_inside, decide-WithinLimits, decide-started}
use rust_api_modular_monolit.Traffic.Isolation.{calls_on, answers_on, run-solo}

abbrev pub count_admitted : List Admission → ℕ
count_admitted [] = 0
count_admitted (admitted ∷ as') = suc (count_admitted as')
count_admitted (wait t ∷ as') = count_admitted as'
count_admitted (refused ∷ as') = count_admitted as'

-- Every call comes while the window that started at `s` is open.
abbrev pub Inside : RateLimitOptions → ℕ → List (ℕ × Arrival) → Type 0
Inside o s = All (λ c. (s ≤ c.0) × (c.0 < s + o.window))

abbrev pub OnlyNew : List (ℕ × Arrival) → Type 0
OnlyNew = All (λ c. c.1 ≡ new)

-- A call inside the window decides on the entry as it is.
pub solo_inside :
    (o : RateLimitOptions) (w : Window) (now : ℕ) (a : Arrival) (cs : List (ℕ × Arrival))
    → w.started ≤ now
    → now < w.started + o.window
    → solo o (some w) ((now, a) ∷ cs) ≡ (decide o a w).0 ∷ solo o (some (decide o a w).1) cs
unfolding solo
solo_inside o w now a cs h k = rw (reopen_inside o now w h k)

decide-used :
    (o : RateLimitOptions) (a : Arrival) (w : Window)
    → Fits o
    → WithinLimits o w
    → w.used + count_admitted ((decide o a w).0 ∷ []) ≡ (decide o a w).1.used
unfolding decide
decide-used o new w f h = ground arith
decide-used o queued w f h = ground arith

count_admitted-cons :
    (a : Admission) (as' : List Admission)
    → count_admitted (a ∷ as') ≡ count_admitted (a ∷ []) + count_admitted as'
count_admitted-cons admitted as' = omega arith
count_admitted-cons (wait t) as' = omega arith
count_admitted-cons refused as' = omega arith

solo_budget :
    (o : RateLimitOptions) (w : Window) (cs : List (ℕ × Arrival))
    → Fits o
    → WithinLimits o w
    → Inside o w.started cs
    → w.used + count_admitted (solo o (some w) cs) ≤ o.permit_limit
solo_budget o w [] f h i = unfold solo in omega arith
solo_budget o w ((now, a) ∷ cs) f h ((lo, hi), i) = rw (solo_inside o w now a cs lo hi) (
    omega (
      arith,
      decide-used o a w f h,
      count_admitted-cons (decide o a w).0 (solo o (some (decide o a w).1) cs),
      solo_budget o (decide o a w).1 cs f (decide-WithinLimits o a w f h)
          (subst (λ s. Inside o s cs) (sym (decide-started o a w)) i),
    ))

-- Within one window a partition gets no more permits than `permit_limit`, those used before
-- included, whatever the other partitions do, whatever waits, and however the calls are ordered.
-- The limiter is valid, time does not go back, and the partition's calls come while its window is
-- open.
pub run-budget :
    (l : RateLimiter) (p : String) (t : ℕ) (w : Window) (cs : List Call)
    → IsValid l
    → get p l.windows ≡ some w
    → Follows t cs
    → Inside l.options w.started (calls_on p cs)
    → w.used + count_admitted (answers_on p cs (run l cs)) ≤ l.options.permit_limit
run-budget l p t w cs v e f i =
    let h : WithinLimits l.options w =
      get-AllValues (WithinLimits l.options) p l.windows w v.bounded e in
    rw (run-solo l p t cs v.distinct f, e) (solo_budget l.options w (calls_on p cs) v.fits h i)

decide_new :
    (o : RateLimitOptions) (w : Window)
    → Fits o
    → o.queue_limit ≡ 0
    → WithinLimits o w
    → (w.used + count_admitted ((decide o new w).0 ∷ []) ≡ min o.permit_limit (w.used + 1))
      × ((decide o new w).1.used ≡ min o.permit_limit (w.used + 1))
unfolding decide
decide_new o w f q h = ground arith

solo_exact :
    (o : RateLimitOptions) (w : Window) (cs : List (ℕ × Arrival))
    → Fits o
    → o.queue_limit ≡ 0
    → WithinLimits o w
    → Inside o w.started cs
    → OnlyNew cs
    → w.used + count_admitted (solo o (some w) cs) ≡ min o.permit_limit (w.used + length cs)
solo_exact o w [] f q h i n = unfold solo in omega arith
solo_exact o w ((now, a) ∷ cs) f q h ((lo, hi), i) (e, n) =
    rw (e, solo_inside o w now new cs lo hi)
      (omega (
        arith,
        decide_new o w f q h,
        count_admitted-cons (decide o new w).0 (solo o (some (decide o new w).1) cs),
        solo_exact o (decide o new w).1 cs f q (decide-WithinLimits o new w f h)
            (subst (λ s. Inside o s cs) (sym (decide-started o new w)) i) n,
      ))

-- With no queue (the default, and every configured policy) a window lets through exactly
-- `permit_limit` of a partition's requests: the first ones, up to the limit, and no later one.
run-exact :
    (l : RateLimiter) (p : String) (t : ℕ) (w : Window) (cs : List Call)
    → IsValid l
    → l.options.queue_limit ≡ 0
    → get p l.windows ≡ some w
    → Follows t cs
    → Inside l.options w.started (calls_on p cs)
    → OnlyNew (calls_on p cs)
    → w.used + count_admitted (answers_on p cs (run l cs))
      ≡ min l.options.permit_limit (w.used + length (calls_on p cs))
run-exact l p t w cs v q e f i n =
    let h : WithinLimits l.options w =
      get-AllValues (WithinLimits l.options) p l.windows w v.bounded e in
    rw (run-solo l p t cs v.distinct f, e) (solo_exact l.options w (calls_on p cs) v.fits q h i n)
