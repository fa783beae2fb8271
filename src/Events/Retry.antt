-- ===== src/Events/Retry.antt =====
-- The failures of an outbox row: `record_failure` of
-- crates/shared-kernel/src/events/dispatcher.rs.
use rust_api_modular_monolit.Base.{
  ℕ, suc, ◌+◌, ◌≤◌, ◌≡◌, refl, ◌∙◌, String, List, [], ◌∷◌, Option, none, some, arith, get_elem?,
}
use rust_api_modular_monolit.Events.Outbox.{OutboxRow}
use rust_api_modular_monolit.Events.Dispatcher.{record_failure, retry_delays, seconds}

-- A failed delivery: when it ended, and what it reported.
pub record Failure : Type 0 where
  pub at : ℕ
  pub error : String

-- The row after a series of failed deliveries.
unfoldable pub fail_all : List Failure → OutboxRow → OutboxRow
fail_all [] row = row
fail_all (f ∷ failures) row = fail_all failures (record_failure f.at f.error row)

-- Each delivery of the series began when the row was due, and so ended no earlier.
unfoldable pub Due : List Failure → OutboxRow → Type 0
Due [] row = Unit
Due (f ∷ failures) row =
    (row.next_attempt_at ≤ f.at) × Due failures (record_failure f.at f.error row)

-- The text that is kept of an error.
abbrev pub error_of : Option String → String
error_of none = ""
error_of (some error) = error

module _ (now : ℕ) (error : String) (row : OutboxRow) where
  -- A failure that a delay answers.
  pub record_failure-retry :
      (n delay : ℕ)
      → row.attempts ≡ n
      → get_elem? retry_delays n ≡ some delay
      → ((record_failure now error row).attempts ≡ suc n)
        × ((record_failure now error row).next_attempt_at ≡ now + delay)
        × ((record_failure now error row).dead_lettered_at ≡ row.dead_lettered_at)
  unfolding record_failure
  record_failure-retry n delay h e = rw (h, e, record_failure) (omega arith, refl, refl)

  -- A failure that none answers.
  pub record_failure-dead :
      (n : ℕ)
      → row.attempts ≡ n
      → get_elem? retry_delays n ≡ none
      → ((record_failure now error row).attempts ≡ suc n)
        × ((record_failure now error row).dead_lettered_at ≡ some now)
  unfolding record_failure
  record_failure-dead n h e = rw (h, e, record_failure) (omega arith, refl)

-- A row that has not failed yet is retried through five failed deliveries, and not through the
-- sixth, which dead-letters it at the time of that failure and not before; when each delivery
-- waits until the row is due, that is at least 756 seconds after the first failure.
pub fail_all-six :
    (row : OutboxRow) (a b c d e f : Failure)
    → row.attempts ≡ 0
    → row.dead_lettered_at ≡ none
    → Due (a ∷ b ∷ c ∷ d ∷ e ∷ f ∷ []) row
    → ((fail_all (a ∷ b ∷ c ∷ d ∷ e ∷ []) row).dead_lettered_at ≡ none)
      × ((fail_all (a ∷ b ∷ c ∷ d ∷ e ∷ f ∷ []) row).dead_lettered_at ≡ some f.at)
      × (a.at + seconds 756 ≤ f.at)
unfolding fail_all Due
fail_all-six row a b c d e f fresh alive due =
    let r1 = record_failure a.at a.error row in
    let r2 = record_failure b.at b.error r1 in
    let r3 = record_failure c.at c.error r2 in
    let r4 = record_failure d.at d.error r3 in
    let r5 = record_failure e.at e.error r4 in
    let s1 = record_failure-retry a.at a.error row 0 (seconds 1) fresh refl in
    let s2 = record_failure-retry b.at b.error r1 1 (seconds 5) s1.0 refl in
    let s3 = record_failure-retry c.at c.error r2 2 (seconds 30) s2.0 refl in
    let s4 = record_failure-retry d.at d.error r3 3 (seconds 120) s3.0 refl in
    let s5 = record_failure-retry e.at e.error r4 4 (seconds 600) s4.0 refl in
    let s6 = record_failure-dead f.at f.error r5 5 s5.0 refl in
    (s5.2 ∙ s4.2 ∙ s3.2 ∙ s2.2 ∙ s1.2 ∙ alive, s6.1, omega (arith, due.1.0, due.1.1.0))
