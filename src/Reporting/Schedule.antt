-- ===== src/Reporting/Schedule.antt =====
-- `until_next` of crates/module-reporting/src/job.rs: when the job runs next.
use rust_api_modular_monolit.Base.{
  if◌then◌else◌, leb, ◌-◌, ◌/◌, ◌*◌, ℕ, ◌+◌, ◌%◌, ◌<◌, ◌≤◌, ◌≡◌, arith,
}

-- A day.
abbrev pub day : ℕ
day = 86_400_000_000_000

-- `until_next`, the time of day counted from midnight.
unfoldable pub until_next : ℕ → ℕ → ℕ
until_next now run_at =
    let next = now / day * day + run_at in if leb next now then next + day - now else next - now

-- The job waits more than nothing and at most a day, and wakes at its time of day.
pub until_next-bounds :
    (now run_at : ℕ)
    → run_at < day
    → (0 < until_next now run_at)
      × (until_next now run_at ≤ day)
      × ((now + until_next now run_at) % day ≡ run_at)
unfolding until_next
until_next-bounds now run_at h = ground arith
