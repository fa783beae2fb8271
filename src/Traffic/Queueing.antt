-- ===== src/Traffic/Queueing.antt =====
-- Requests that wait for a later window: who is served first, and what becomes of a place whose
-- request has gone.
use rust_api_modular_monolit.Base.{
  ℕ, suc, ◌+◌, ◌-◌, ◌≤◌, ◌<◌, ◌≡◌, subst, sym, String, List, [], ◌∷◌, some, arith, All, eq_string,
}
use rust_api_modular_monolit.Base.Map.{get, get-AllValues}
use rust_api_modular_monolit.Traffic.{
  RateLimitOptions, RateLimiter, Window, Arrival, new, queued, Admission, admitted, refused, Call,
  reopen, decide, run, Follows, Fits, WithinLimits, IsValid,
}
use rust_api_modular_monolit.Traffic.Solo.{
  solo, decide-WithinLimits, decide-started, reopen-WithinLimits,
}
use rust_api_modular_monolit.Traffic.Isolation.{calls_on, answers_on, run-solo}
use rust_api_modular_monolit.Traffic.Budget.{Inside, OnlyNew, solo_inside}

-- How many of the calls come from requests that wake from their wait.
abbrev pub woken : List (ℕ × Arrival) → ℕ
woken [] = 0
woken ((now, new) ∷ cs) = woken cs
woken ((now, queued) ∷ cs) = suc (woken cs)

-- Every request that woke was let through.
abbrev pub AllServed : List (ℕ × Arrival) → List Admission → Type 0
AllServed ((now, queued) ∷ cs) (a ∷ as') = (a ≡ admitted) × AllServed cs as'
AllServed ((now, new) ∷ cs) (a ∷ as') = AllServed cs as'
AllServed _ _ = Unit

decide_woken :
    (o : RateLimitOptions) (w : Window) (n : ℕ)
    → Fits o
    → WithinLimits o w
    → w.used + suc n ≤ o.permit_limit
    → suc n ≤ w.queued
    → ((decide o queued w).0 ≡ admitted)
      × ((decide o queued w).1.used + n ≤ o.permit_limit)
      × (n ≤ (decide o queued w).1.queued)
unfolding decide
decide_woken o w n f h u q = ground arith

-- A new arrival takes no permit that the waiters need.
decide_newcomer :
    (o : RateLimitOptions) (w : Window) (n : ℕ)
    → Fits o
    → WithinLimits o w
    → w.used + n ≤ o.permit_limit
    → n ≤ w.queued
    → ((decide o new w).1.used + n ≤ o.permit_limit) × (n ≤ (decide o new w).1.queued)
unfolding decide
decide_newcomer o w n f h u q = ground arith

solo_served :
    (o : RateLimitOptions) (w : Window) (cs : List (ℕ × Arrival))
    → Fits o
    → WithinLimits o w
    → Inside o w.started cs
    → w.used + woken cs ≤ o.permit_limit
    → woken cs ≤ w.queued
    → AllServed cs (solo o (some w) cs)
solo_served o w [] f h i u q = unfold solo in tt
solo_served o w ((now, queued) ∷ cs) f h ((lo, hi), i) u q =
    let (served, u', q') = decide_woken o w (woken cs) f h u q in
    rw (solo_inside o w now queued cs lo hi) (
      served,
      solo_served o (decide o queued w).1 cs f (decide-WithinLimits o queued w f h)
          (subst (λ s. Inside o s cs) (sym (decide-started o queued w)) i) u' q',
    )
solo_served o w ((now, new) ∷ cs) f h ((lo, hi), i) u q =
    let (u', q') = decide_newcomer o w (woken cs) f h u q in
    rw (solo_inside o w now new cs lo hi) (
      solo_served o (decide o new w).1 cs f (decide-WithinLimits o new w f h)
        (subst (λ s. Inside o s cs) (sym (decide-started o new w)) i) u' q')

-- The entry as the first call after its window closed leaves it open.
abbrev restart : ℕ → Window → Window
restart s w = record w { started = s; used = 0 }

reopen_closed :
    (o : RateLimitOptions) (s : ℕ) (w : Window)
    → 0 < o.window
    → o.window ≤ s - w.started
    → reopen o s w ≡ reopen o s (restart s w)
unfolding reopen
reopen_closed o s w p h = ground arith

solo-restart :
    (o : RateLimitOptions) (s : ℕ) (a : Arrival) (w : Window) (cs : List (ℕ × Arrival))
    → 0 < o.window
    → o.window ≤ s - w.started
    → solo o (some w) ((s, a) ∷ cs) ≡ solo o (some (restart s w)) ((s, a) ∷ cs)
unfolding solo
solo-restart o s a w cs p h = rw (reopen_closed o s w p h)

restart_served :
    (o : RateLimitOptions) (s : ℕ) (w : Window) (cs : List (ℕ × Arrival))
    → Fits o
    → WithinLimits o w
    → 0 < o.window
    → o.window ≤ s - w.started
    → Inside o s cs
    → woken cs ≤ o.permit_limit
    → woken cs ≤ w.queued
    → (a : Arrival) (rest : List (ℕ × Arrival)) → cs ≡ (s, a) ∷ rest
    → AllServed cs (solo o (some w) cs)
restart_served o s w cs f h p closed i u q a rest e =
    let again : solo o (some w) cs ≡ solo o (some (restart s w)) cs =
      subst (λ c. solo o (some w) c ≡ solo o (some (restart s w)) c) (sym e)
        (solo-restart o s a w rest p closed) in
    rw again (solo_served o (restart s w) cs f (omega arith, h.1) i (omega arith) q)

-- Waiters go before newcomers. Take a partition whose window has closed by the time `s` of the
-- first of its calls, and any mixture of arrivals and wakes in the window that opens then. If no
-- more requests wake than wait, and no more than `permit_limit`, every one of them is let through,
-- however many new requests come between.
pub run-waiters_first :
    (l : RateLimiter) (p : String) (t s : ℕ) (w : Window) (cs : List Call) (a : Arrival)
    (rest : List (ℕ × Arrival))
    → IsValid l
    → get p l.windows ≡ some w
    → Follows t cs
    → calls_on p cs ≡ (s, a) ∷ rest
    → 0 < l.options.window
    → l.options.window ≤ s - w.started
    → Inside l.options s (calls_on p cs)
    → woken (calls_on p cs) ≤ l.options.permit_limit
    → woken (calls_on p cs) ≤ w.queued
    → AllServed (calls_on p cs) (answers_on p cs (run l cs))
run-waiters_first l p t s w cs a rest v e f first open' closed i u q =
    let h : WithinLimits l.options w =
      get-AllValues (WithinLimits l.options) p l.windows w v.bounded e in
    rw (run-solo l p t cs v.distinct f, e)
      (restart_served l.options s w (calls_on p cs) v.fits h open' closed i u q a rest first)

abbrev pub AllRefused : List Admission → Type 0
AllRefused = All (λ a. a ≡ refused)

decide_starved :
    (o : RateLimitOptions) (now : ℕ) (w : Window)
    → Fits o
    → WithinLimits o w
    → o.permit_limit ≤ w.queued
    → o.queue_limit ≤ w.queued
    → ((decide o new (reopen o now w)).0 ≡ refused)
      × ((decide o new (reopen o now w)).1.queued ≡ w.queued)
unfolding decide reopen
decide_starved o now w f h p q = ground arith

solo_starved :
    (o : RateLimitOptions) (w : Window) (cs : List (ℕ × Arrival))
    → Fits o
    → WithinLimits o w
    → o.permit_limit ≤ w.queued
    → o.queue_limit ≤ w.queued
    → OnlyNew cs
    → AllRefused (solo o (some w) cs)
unfolding solo
solo_starved o w [] f h p q n = tt
solo_starved o w ((now, a) ∷ cs) f h p q (e, n) =
    let (gone, same) = decide_starved o now w f h p q in
    rw e (
      gone,
      solo_starved o (decide o new (reopen o now w)).1 cs f
          (decide-WithinLimits o new _ f (reopen-WithinLimits o now w h)) (omega arith)
          (omega arith) n,
    )

-- A place in the queue is given up only by the wake of its request. So once a partition's queue is
-- full, has at least as many places as a window has permits, and the requests that held the places
-- have gone without waking (their futures were dropped), every later request of the partition is
-- refused, at any time, however many windows pass.
pub run-abandoned :
    (l : RateLimiter) (p : String) (t : ℕ) (w : Window) (cs : List Call)
    → IsValid l
    → get p l.windows ≡ some w
    → l.options.permit_limit ≤ w.queued
    → l.options.queue_limit ≤ w.queued
    → Follows t cs
    → OnlyNew (calls_on p cs)
    → AllRefused (answers_on p cs (run l cs))
run-abandoned l p t w cs v e full same f n =
    let h : WithinLimits l.options w =
      get-AllValues (WithinLimits l.options) p l.windows w v.bounded e in
    rw (run-solo l p t cs v.distinct f, e)
      (solo_starved l.options w (calls_on p cs) v.fits h full same n)
