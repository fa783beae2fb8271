-- ===== src/Events/Applied.antt =====
-- That a processed row's event has reached its subscribers: the dispatcher of
-- crates/shared-kernel/src/events/dispatcher.rs and the inbox of inbox.rs together.
use rust_api_modular_monolit.Base.{
  ℕ, ◌≡◌, String, Bool, true, not, ◌&&◌, List, [], ◌∷◌, Option, none, some, arith, inl, inr,
  Option-cases, All, All-imp, get_elem?, take,
}
use rust_api_modular_monolit.Events.Outbox.{OutboxRow, is_due, select_batch}
use rust_api_modular_monolit.Events.Dispatcher.{
  Dispatcher, ModuleDatabases, Store, Conditions, settle_row, process_rows, process_batch, deliver,
  record_failure, mark_processed, retry_delays, for_event,
}
use rust_api_modular_monolit.Events.DeadLetters
use rust_api_modular_monolit.Events.Delivery.{HandledIn, deliver-HandledIn, deliver_keeps}
use rust_api_modular_monolit.Events.Rows.{
  All-update_row, All-publish, All-revive_letter, select_batch-due,
}
use rust_api_modular_monolit.Events.Lifecycle.{
  Step, published, polled, sent_back, Reachable, started, stepped, is_due-open,
}

module _ {E D : Type 0} (d : Dispatcher E D) where
  abbrev pub AppliedWhen : ModuleDatabases D → ℕ → String → Option ℕ → Type 0
  AppliedWhen databases id event_type none = Unit
  AppliedWhen databases id event_type (some at) =
      All (HandledIn id databases) (for_event event_type d.subscriptions)

  -- If the row is processed, each subscriber of its type has applied the event.
  abbrev pub IsApplied : ModuleDatabases D → OutboxRow → Type 0
  IsApplied databases row = AppliedWhen databases row.id row.event_type row.processed_at

  AppliedWhen-deliver :
      (c : Conditions) (message : OutboxRow) (databases : ModuleDatabases D) (id : ℕ)
      (event_type : String) (at : Option ℕ)
      → AppliedWhen databases id event_type at
      → AppliedWhen (deliver d c.faults message databases).1 id event_type at
  AppliedWhen-deliver c message databases id event_type none h = tt
  AppliedWhen-deliver c message databases id event_type (some at) h =
      All-imp (HandledIn id databases) (HandledIn id (deliver d c.faults message databases).1)
        (deliver_keeps d c.faults message databases id) (for_event event_type d.subscriptions) h

  record_failure-IsApplied :
      (now : ℕ) (error : String) (message : OutboxRow) (databases : ModuleDatabases D)
      → message.processed_at ≡ none
      → IsApplied databases (record_failure now error message)
  unfolding record_failure
  record_failure-IsApplied now error message databases fresh =
      elim (Option-cases (get_elem? retry_delays message.attempts)) [
        | inl e ↦ rw (e, record_failure, fresh) tt
        | inr (delay, e) ↦ rw (e, record_failure, fresh) tt
      ]

  deliver-IsApplied :
      (c : Conditions) (now : ℕ) (message : OutboxRow) (databases : ModuleDatabases D)
      → message.processed_at ≡ none
      → IsApplied
          (deliver d c.faults message databases).1
          (settle_row now (deliver d c.faults message databases).0 message)
  unfolding settle_row mark_processed
  deliver-IsApplied c now message databases fresh =
      elim (Option-cases (deliver d c.faults message databases).0) [
        | inl e ↦ rw e (deliver-HandledIn d c.faults message databases e)
        | inr (error, e) ↦ rw e (record_failure-IsApplied now error message _ fresh)
      ]

  process_rows-IsApplied :
      (c : Conditions) (batch : List OutboxRow) (s : Store D)
      → All (λ row. row.processed_at ≡ none) batch
      → All (IsApplied s.databases) s.table
      → All (IsApplied (process_rows d c batch s).databases) (process_rows d c batch s).table
  unfolding process_rows
  process_rows-IsApplied c [] s fresh h = h
  process_rows-IsApplied c (message ∷ batch) s fresh h =
      let after = (deliver d c.faults message s.databases).1 in
      process_rows-IsApplied c batch _ fresh.1 (
        All-update_row (IsApplied after) message.id _ s.table
          (λ _ _ _. deliver-IsApplied c (c.settled message.id) message s.databases fresh.0)
          (All-imp (IsApplied s.databases) (IsApplied after)
            (λ row.
              AppliedWhen-deliver c message s.databases row.id row.event_type row.processed_at)
            s.table h))

  -- The handlers' commits stand whatever becomes of the outbox.
  process_rows_keeps :
      (c : Conditions) (batch : List OutboxRow) (s : Store D) (row : OutboxRow)
      → IsApplied s.databases row
      → IsApplied (process_rows d c batch s).databases row
  unfolding process_rows
  process_rows_keeps c [] s row h = h
  process_rows_keeps c (message ∷ batch) s row h =
      process_rows_keeps c batch _ row
        (AppliedWhen-deliver c message s.databases row.id row.event_type row.processed_at h)

  select_batch-fresh :
      (now : ℕ) (locked : OutboxRow → Bool) (table : List OutboxRow)
      → All (λ row. row.processed_at ≡ none) (select_batch now locked table)
  select_batch-fresh now locked table =
      All-imp (λ row. (is_due now row && not (locked row)) ≡ true) (λ row. row.processed_at ≡ none)
        (λ row due. (is_due-open now row (ground arith)).0) (select_batch now locked table)
        (select_batch-due now locked table)

  process_batch-IsApplied :
      (c : Conditions) (s : Store D)
      → All (IsApplied s.databases) s.table
      → All (IsApplied (process_batch d c s).1.databases) (process_batch d c s).1.table
  unfolding process_batch
  process_batch-IsApplied c s h = elim (Option-cases c.batch_fault) [
    | inl e ↦
        rw (e, process_batch)
          (process_rows-IsApplied c _ s (select_batch-fresh c.polled c.locked s.table) h)
    | inr (fault, e) ↦
        rw (e, process_batch)
          (All-imp (IsApplied s.databases) _
            (process_rows_keeps c (take fault.0 (select_batch c.polled c.locked s.table)) s) s.table
            h)
  ]

  revive-IsApplied :
      (databases : ModuleDatabases D) (now : ℕ) (row : OutboxRow)
      → IsApplied databases row
      → IsApplied databases (DeadLetters.revive now row)
  revive-IsApplied databases now row h = h

  Step-IsApplied :
      (s t : Store D)
      → Step d s t
      → All (IsApplied s.databases) s.table
      → All (IsApplied t.databases) t.table
  unfolding DeadLetters.retry
  Step-IsApplied s t (published _ now event table e) h =
      All-publish (IsApplied s.databases) now event s.table table (λ _. tt) e h
  Step-IsApplied s t (polled _ c) h = process_batch-IsApplied c s h
  Step-IsApplied s t (sent_back _ now id) h =
      All-revive_letter (IsApplied s.databases) now id s.table (revive-IsApplied s.databases now) h

  -- In every state that an empty outbox comes to by publishing, polling and sending back dead
  -- letters, in any order and whatever fails (a batch whose own transaction is rolled back after
  -- its handlers have committed, too), the event of a row that is marked processed has been
  -- applied by every subscriber of its type.
  pub Reachable-IsApplied :
      (databases : ModuleDatabases D) (s : Store D)
      → Reachable d (record { table = []; databases = databases }) s
      → All (IsApplied s.databases) s.table
  Reachable-IsApplied databases s started = tt
  Reachable-IsApplied databases s (stepped r _ path step) =
      Step-IsApplied r s step (Reachable-IsApplied databases r path)
