-- ===== src/Traffic.antt =====
-- crates/shared-kernel/src/traffic_control.rs: one policy's fixed-window limiter, partitioned by
-- key. An `Instant` is a number of ticks, and `duration_since` stops at 0 as `-` does; a `u32`
-- counter keeps its wrap-around.
pub mod Solo
pub mod Isolation
pub mod Budget
pub mod Queueing
pub mod Partition
mod Tests
use rust_api_modular_monolit.Base.{
  ℕ, suc, ◌+◌, ◌-◌, ◌*◌, ◌%◌, ◌^◌, ◌≤◌, ◌<◌, String, ◌≡◌, Bool, true, false, ◌||◌, List, [], ◌∷◌,
  Option, none, some, ltb, leb, ◌==◌, eq_string, if◌then◌else◌, get_or, length,
}
use rust_api_modular_monolit.Base.Map.{get, insert, retain, IsMap, AllValues}

abbrev pub seconds : ℕ → ℕ
seconds n = n * 1_000_000_000

pub record RateLimitOptions : Type 0 where
  pub permit_limit : ℕ
  pub window : ℕ
  pub queue_limit : ℕ

-- `RateLimitOptions::default`
abbrev pub default_options : RateLimitOptions
default_options = record { permit_limit = 60; window = seconds 60; queue_limit = 0 }

pub record Window : Type 0 where
  pub started : ℕ
  pub used : ℕ
  pub queued : ℕ

pub record RateLimiter : Type 0 where
  pub name : String
  pub options : RateLimitOptions
  pub windows : List (String × Window)
  pub last_sweep : Option ℕ

pub data Arrival : Type 0 where
  new queued : Arrival

pub data Admission : Type 0 where
  admitted : Admission
  wait : ℕ → Admission
  refused : Admission

-- `RateLimiter::new`
pub new_limiter : String → RateLimitOptions → RateLimiter
new_limiter name options = record {
  name = name;
  options = options;
  windows = [];
  last_sweep = none;
}

-- `a + b` on `u32`, as the release profile computes it.
abbrev pub add_u32 : ℕ → ℕ → ℕ
add_u32 a b = (a + b) % 2 ^ 32

-- What a sweep keeps: a window with waiters, or one that has not closed.
pub is_kept : RateLimitOptions → ℕ → String → Window → Bool
is_kept o now _ w = ltb 0 w.queued || ltb (now - w.started) o.window

pub sweep_closed_windows_as_of : ℕ → RateLimiter → RateLimiter × ℕ
sweep_closed_windows_as_of now l =
    let kept = retain (is_kept l.options now) l.windows in
    (record l { windows = kept }, length l.windows - length kept)

abbrev pub swept_recently : RateLimiter → ℕ → Bool
swept_recently l now = elim l.last_sweep [
  | none ↦ false
  | some last ↦ ltb (now - last) l.options.window
]

pub sweep_if_due : ℕ → RateLimiter → RateLimiter
sweep_if_due now l =
    if swept_recently l now
    then l
    else (sweep_closed_windows_as_of now (record l { last_sweep = some now })).0

-- The entry that `or_insert` makes.
abbrev pub fresh : ℕ → Window
fresh now = record { started = now; used = 0; queued = 0 }

-- A closed window starts over; its waiters keep their place.
pub reopen : RateLimitOptions → ℕ → Window → Window
reopen o now w = if leb o.window (now - w.started) then record w { started = now; used = 0 } else w

abbrev pub waiting_ahead : Arrival → Window → ℕ
waiting_ahead new w = w.queued
waiting_ahead queued w = 0

abbrev pub take_permit : Arrival → Window → Window
take_permit new w = record w { used = add_u32 w.used 1 }
take_permit queued w = record w { used = add_u32 w.used 1; queued = w.queued - 1 }

abbrev pub turn_away : RateLimitOptions → Arrival → Window → Admission × Window
turn_away o queued w = (wait (w.started + o.window), w)
turn_away o new w =
    if ltb w.queued o.queue_limit
    then (wait (w.started + o.window), record w { queued = add_u32 w.queued 1 })
    else (refused, w)

-- The decision on the entry of one partition.
pub decide : RateLimitOptions → Arrival → Window → Admission × Window
decide o arrival w =
    if ltb (add_u32 w.used (waiting_ahead arrival w)) o.permit_limit
    then (admitted, take_permit arrival w)
    else turn_away o arrival w

pub admit : RateLimiter → String → ℕ → Arrival → Admission × RateLimiter
admit l partition now arrival =
    let swept = sweep_if_due now l in
    let entry = reopen l.options now (get_or (fresh now) (get partition swept.windows)) in
    let (answer, entry') = decide l.options arrival entry in
    (answer, record swept { windows = insert partition entry' swept.windows })

-- `tracked_partitions`
pub tracked_partitions : RateLimiter → ℕ
tracked_partitions l = length l.windows

-- One call of `admit`: by a request that arrives, or by one that wakes from its wait.
pub record Call : Type 0 where
  pub partition : String
  pub now : ℕ
  pub arrival : Arrival

-- The calls that the requests of a schedule make, one after another.
pub run : RateLimiter → List Call → List Admission
run l [] = []
run l (c ∷ cs) = let (answer, l') = admit l c.partition c.now c.arrival in answer ∷ run l' cs

pub after : RateLimiter → List Call → RateLimiter
after l [] = l
after l (c ∷ cs) = after (admit l c.partition c.now c.arrival).1 cs

-- `Instant::now` does not go back.
abbrev pub Follows : ℕ → List Call → Type 0
Follows t [] = Unit
Follows t (c ∷ cs) = (t ≤ c.now) × Follows c.now cs

-- No `u32` sum can wrap under these options.
abbrev pub Fits : RateLimitOptions → Type 0
Fits o = o.permit_limit + o.queue_limit < 2 ^ 32

abbrev pub WithinLimits : RateLimitOptions → Window → Type 0
WithinLimits o w = (w.used ≤ o.permit_limit) × (w.queued ≤ o.queue_limit)

pub record IsValid (l : RateLimiter) : Type 0 where
  pub fits : Fits l.options
  pub distinct : IsMap l.windows
  pub bounded : AllValues (WithinLimits l.options) l.windows
