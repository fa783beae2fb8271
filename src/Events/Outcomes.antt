-- ===== src/Events/Outcomes.antt =====
-- What a batch makes of each of its rows, column by column: `process_batch` and `record_failure` of
-- crates/shared-kernel/src/events/dispatcher.rs.
use rust_api_modular_monolit.Base.{
  ℕ, ◌+◌, ◌≡◌, refl, subst, ◌⊎◌, inl, inr, String, Bool, true, not, ◌&&◌, All-imp, List, ◌∷◌, ◌++◌,
  Option, none, some, arith, All, All-middle, Option-cases, get_elem?,
}
use rust_api_modular_monolit.Base.Text.{take_chars}
use rust_api_modular_monolit.Events.Outbox.{OutboxRow, is_due, select_batch}
use rust_api_modular_monolit.Events.Dispatcher.{
  Dispatcher, Store, Conditions, record_failure, mark_processed, settle_row, retry_delays,
  process_rows, process_batch, deliver,
}
use rust_api_modular_monolit.Events.Rows.{select_batch-due}
use rust_api_modular_monolit.Events.Lifecycle.{is_due-open}
use rust_api_modular_monolit.Events.Final.{find_row, Distinct}
use rust_api_modular_monolit.Events.Settling.{settled, process_batch-settles}

-- A row that waits: it is neither processed nor dead.
abbrev pub Waits : OutboxRow → Type 0
Waits row = (row.processed_at ≡ none) × (row.dead_lettered_at ≡ none)

-- Another try at a later time, or none.
abbrev pub Retries : ℕ → OutboxRow → OutboxRow → Type 0
Retries now message row =
    ((delay : ℕ) × (get_elem? retry_delays message.attempts ≡ some delay)
      × (row.next_attempt_at ≡ now + delay)
      × (row.dead_lettered_at ≡ none))
    ⊎ ((get_elem? retry_delays message.attempts ≡ none)
        × (row.next_attempt_at ≡ message.next_attempt_at)
        × (row.dead_lettered_at ≡ some now))

-- The columns after a delivery that reported no error, and after one that reported an error.
abbrev pub Tells : ℕ → Option String → OutboxRow → OutboxRow → Type 0
Tells now none message row =
    (row.processed_at ≡ some now)
    × (row.attempts ≡ message.attempts)
    × (row.last_error ≡ message.last_error)
    × (row.next_attempt_at ≡ message.next_attempt_at)
    × (row.dead_lettered_at ≡ none)
Tells now (some error) message row =
    (row.processed_at ≡ none)
    × (row.attempts ≡ message.attempts + 1)
    × (row.last_error ≡ some (take_chars 2000 error))
    × Retries now message row

-- The row of a message that a batch picked, after the batch.
pub record IsSettled (now : ℕ) (outcome : Option String) (message row : OutboxRow) : Type 0 where
  pub same_id : row.id ≡ message.id
  pub same_type : row.event_type ≡ message.event_type
  pub same_payload : row.payload ≡ message.payload
  pub same_time : row.occurred_at ≡ message.occurred_at
  pub told : Tells now outcome message row

record_failure-IsSettled :
    (now : ℕ) (error : String) (message : OutboxRow)
    → Waits message
    → IsSettled now (some error) message (record_failure now error message)
unfolding record_failure
record_failure-IsSettled now error message w =
    elim (Option-cases (get_elem? retry_delays message.attempts)) [
      | inl e ↦
          rw (e, record_failure)
            (record {
              same_id = refl;
              same_type = refl;
              same_payload = refl;
              same_time = refl;
              told = (w.0, refl, refl, inr (e, refl, refl));
            })
      | inr (delay, e) ↦
          rw (e, record_failure)
            (record {
              same_id = refl;
              same_type = refl;
              same_payload = refl;
              same_time = refl;
              told = (w.0, refl, refl, inl (delay, e, refl, w.1));
            })
    ]

select_batch-Waits :
    (now : ℕ) (locked : OutboxRow → Bool) (table : List OutboxRow)
    → All Waits (select_batch now locked table)
select_batch-Waits now locked table =
    All-imp (λ row. (is_due now row && not (locked row)) ≡ true) Waits
      (λ row due. is_due-open now row (ground arith)) (select_batch now locked table)
      (select_batch-due now locked table)

settle_row-IsSettled :
    (now : ℕ) (outcome : Option String) (message : OutboxRow)
    → Waits message
    → IsSettled now outcome message (settle_row now outcome message)
unfolding settle_row mark_processed
settle_row-IsSettled now none message w = record {
  same_id = refl;
  same_type = refl;
  same_payload = refl;
  same_time = refl;
  told = (refl, refl, refl, refl, w.1);
}
settle_row-IsSettled now (some error) message w = record_failure-IsSettled now error message w

module _ {E D : Type 0} (d : Dispatcher E D) (c : Conditions) where
  -- What the delivery of a message reports, after the messages before it have been delivered.
  abbrev pub reported : List OutboxRow → OutboxRow → Store D → Option String
  reported before message s = (deliver d c.faults message (process_rows d c before s).databases).0

  -- A batch that commits settles each row that it picked, by what the row's own delivery reported:
  -- where that was no error the row is marked processed and else unchanged, and where it was an
  -- error the row is not processed, counts one failure more, keeps the error's first 2000
  -- characters, and is due again after the delay of its count or, past the last delay, dead. The
  -- columns that tell the event stay. The ids of the table are distinct.
  pub process_batch-IsSettled :
      (before : List OutboxRow) (message : OutboxRow) (after : List OutboxRow) (s : Store D)
      → c.batch_fault ≡ none
      → Distinct s.table
      → select_batch c.polled c.locked s.table ≡ before ++ message ∷ after
      → (row : OutboxRow) × (find_row message.id (process_batch d c s).1.table ≡ some row)
        × IsSettled (c.settled message.id) (reported before message s) message row
  process_batch-IsSettled before message after s committed unique picked =
      let waits =
        All-middle Waits before message after
          (subst (All Waits) picked (select_batch-Waits c.polled c.locked s.table)) in
      (
        settled d c before message s,
        process_batch-settles d c before message after s committed unique picked,
        settle_row-IsSettled (c.settled message.id) (reported before message s) message waits,
      )
