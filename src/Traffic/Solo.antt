-- ===== src/Traffic/Solo.antt =====
-- A limiter for a single partition: no map and no sweeps. `Traffic/Isolation` shows that each
-- partition of the real limiter behaves as one of these.
use rust_api_modular_monolit.Base.{
  ℕ, ◌+◌, ◌≤◌, ◌<◌, ◌≡◌, List, [], ◌∷◌, Option, some, arith, get_or,
}
use rust_api_modular_monolit.Traffic.{
  RateLimitOptions, Window, Arrival, new, queued, Admission, fresh, reopen, decide, Fits,
  WithinLimits,
}

-- The entry of the partition as a call at `now` finds it.
abbrev pub current : RateLimitOptions → ℕ → Option Window → Window
current o now w = reopen o now (get_or (fresh now) w)

unfoldable pub solo : RateLimitOptions → Option Window → List (ℕ × Arrival) → List Admission
solo o w [] = []
solo o w ((now, arrival) ∷ cs) =
    let (answer, w') = decide o arrival (current o now w) in answer ∷ solo o (some w') cs

pub reopen-WithinLimits :
    (o : RateLimitOptions) (now : ℕ) (w : Window)
    → WithinLimits o w
    → WithinLimits o (reopen o now w)
unfolding reopen
reopen-WithinLimits o now w h = ground arith

-- The entry stays within the limits, whoever calls.
pub decide-WithinLimits :
    (o : RateLimitOptions) (arrival : Arrival) (w : Window)
    → Fits o
    → WithinLimits o w
    → WithinLimits o (decide o arrival w).1
unfolding decide
decide-WithinLimits o new w f h = ground arith
decide-WithinLimits o queued w f h = ground arith

-- A call inside the window does not start it over.
pub reopen_inside :
    (o : RateLimitOptions) (now : ℕ) (w : Window)
    → w.started ≤ now
    → now < w.started + o.window
    → reopen o now w ≡ w
unfolding reopen
reopen_inside o now w s h = ground arith

pub decide-started :
    (o : RateLimitOptions) (arrival : Arrival) (w : Window)
    → (decide o arrival w).1.started ≡ w.started
unfolding decide
decide-started o new w = ground arith
decide-started o queued w = ground arith
