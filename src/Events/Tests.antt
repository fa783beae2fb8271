-- ===== src/Events/Tests.antt =====
-- Runs of the dispatcher and the inbox on small outboxes.
use rust_api_modular_monolit.Base.{
  ℕ, ◌+◌, ◌≤◌, ◌≡◌, refl, ◌⊎◌, String, false, List, [], ◌∷◌, none, some, arith, eq_nat, eq_string,
  eq_pair, All,
}
use rust_api_modular_monolit.Base.Map.{get, insert, remove}
use rust_api_modular_monolit.Base.Result.{Result, ok, err}
use rust_api_modular_monolit.Events.Inbox
use rust_api_modular_monolit.Events.Inbox.{Database, redeliver, redeliver_once}
use rust_api_modular_monolit.Events.Outbox.{
  OutboxRow, Envelope, new_row, publish, update_row, select_batch, sort_rows, insert_row, is_due,
}
use rust_api_modular_monolit.Events.Dispatcher.{
  Dispatcher, Subscription, ModuleDatabases, Store, Conditions, Faults, deliver, deliver_all,
  deliver_to, process_batch, process_rows, settle_row, mark_processed, record_failure, seconds,
}
use rust_api_modular_monolit.Events.Retry.{Failure, fail_all, Due, fail_all-six}
use rust_api_modular_monolit.Events.Delivery.{HandledIn, deliver-HandledIn, deliver-isolated}
use rust_api_modular_monolit.Events.Lifecycle.{
  published, polled, Reachable, started, stepped, IsSound, Reachable-IsSound,
}
use rust_api_modular_monolit.Events.Applied.{IsApplied, Reachable-IsApplied}
use rust_api_modular_monolit.Events.Outcomes.{IsSettled, reported, process_batch-IsSettled}
use rust_api_modular_monolit.Events.Final.{find_row, Reachable-final}

abbrev no_faults : Faults
no_faults key = none

-- Adds the event to the module's table.
abbrev adds : String → String → Subscription ℕ (List ℕ)
adds name key = record {
  event_type = "invoice";
  module_key = key;
  handler_name = name;
  handle = λ event table. ok (event ∷ table);
}

abbrev fails : String → Subscription ℕ (List ℕ)
fails key = record {
  event_type = "invoice";
  module_key = key;
  handler_name = "broken";
  handle = λ event table. err "no";
}

abbrev reading : List (Subscription ℕ (List ℕ)) → Dispatcher ℕ (List ℕ)
reading subscriptions = record {
  decoders = ("invoice", λ payload. ok 7) ∷ [];
  subscriptions = subscriptions;
}

abbrev counters : Dispatcher ℕ (List ℕ)
counters = reading (adds "sales" "admin" ∷ adds "popular" "catalog" ∷ [])

abbrev half_broken : Dispatcher ℕ (List ℕ)
half_broken = reading (fails "admin" ∷ adds "popular" "catalog" ∷ [])

abbrev empty_database : Database (List ℕ)
empty_database = record { inbox = []; tables = [] }

abbrev empty_databases : ModuleDatabases (List ℕ)
empty_databases = ("admin", empty_database) ∷ ("catalog", empty_database) ∷ []

abbrev invoice : Envelope
invoice = record { event_id = 1; event_type = "invoice"; occurred_at = 10; payload = ok "{}" }

abbrev invoice_row : OutboxRow
invoice_row = new_row 10 invoice "{}"

abbrev calm : Conditions
calm = record {
  polled = 20;
  settled = λ id. 21;
  locked = λ row. false;
  faults = no_faults;
  batch_fault = none;
}

abbrev adding : List ℕ → Result (List ℕ) String
adding table = ok (7 ∷ table)

-- A fault, a delivery, and a repeated delivery.
redeliver_once_example :
    (redeliver (some "down" ∷ none ∷ none ∷ []) empty_database (1, "sales") adding ≡ empty_database)
    ⊎ ((tables : List ℕ) × (adding [] ≡ ok tables)
        × (redeliver (some "down" ∷ none ∷ none ∷ []) empty_database (1, "sales") adding
            ≡ record { inbox = (1, "sales") ∷ []; tables = tables }))
redeliver_once_example =
    redeliver_once (some "down" ∷ none ∷ none ∷ []) empty_database (1, "sales") adding refl

deliver-HandledIn_example :
    All
      (HandledIn 1 (deliver counters no_faults invoice_row empty_databases).1)
      (adds "sales" "admin" ∷ adds "popular" "catalog" ∷ [])
unfolding deliver deliver_all deliver_to Inbox.run get insert remove
deliver-HandledIn_example = deliver-HandledIn counters no_faults invoice_row empty_databases refl

deliver-isolated_example :
    HandledIn 1
      (deliver half_broken no_faults invoice_row empty_databases).1
      (adds "popular" "catalog")
unfolding get
deliver-isolated_example =
    deliver-isolated half_broken no_faults invoice_row empty_databases 7 (fails "admin" ∷ [])
      (adds "popular" "catalog") [] refl refl refl refl (λ t. (7 ∷ t, refl))

abbrev failed : ℕ → Failure
failed n = record { at = seconds n; error = "down" }

fail_all-six_example :
    ((fail_all
        (failed 1 ∷ failed 2 ∷ failed 7 ∷ failed 37 ∷ failed 157 ∷ [])
        invoice_row).dead_lettered_at
      ≡ none)
    × ((fail_all
          (failed 1 ∷ failed 2 ∷ failed 7 ∷ failed 37 ∷ failed 157 ∷ failed 757 ∷ [])
          invoice_row).dead_lettered_at
        ≡ some (seconds 757))
    × (seconds 1 + seconds 756 ≤ seconds 757)
unfolding Due record_failure
fail_all-six_example =
    fail_all-six invoice_row (failed 1) (failed 2) (failed 7) (failed 37) (failed 157) (failed 757)
      refl refl (omega arith)

abbrev empty_store : Store (List ℕ)
empty_store = record { table = []; databases = empty_databases }

abbrev one_row : Store (List ℕ)
one_row = record { table = invoice_row ∷ []; databases = empty_databases }

published_once : Reachable counters empty_store one_row
unfolding publish
published_once =
    stepped empty_store one_row started (published empty_store 10 invoice (invoice_row ∷ []) refl)

polled_once : Reachable counters empty_store (process_batch counters calm one_row).1
polled_once = stepped one_row _ published_once (polled one_row calm)

Reachable-IsSound_example : All IsSound (process_batch counters calm one_row).1.table
Reachable-IsSound_example = Reachable-IsSound counters empty_databases _ polled_once

Reachable-IsApplied_example :
    All
      (IsApplied counters (process_batch counters calm one_row).1.databases)
      (process_batch counters calm one_row).1.table
Reachable-IsApplied_example = Reachable-IsApplied counters empty_databases _ polled_once

abbrev processed_row : OutboxRow
processed_row = record {
  id = 1;
  event_type = "invoice";
  payload = "{}";
  occurred_at = 10;
  processed_at = some 21;
  attempts = 0;
  last_error = none;
  dead_lettered_at = none;
  next_attempt_at = 10;
}

Reachable-final_example :
    find_row 1 (process_batch counters calm (process_batch counters calm one_row).1).1.table
    ≡ some processed_row
unfolding process_batch process_rows select_batch sort_rows insert_row is_due settle_row
    mark_processed update_row deliver deliver_all deliver_to Inbox.run get insert remove
Reachable-final_example =
    let s = (process_batch counters calm one_row).1 in
    Reachable-final counters empty_databases s (process_batch counters calm s).1 1 processed_row
      polled_once (stepped s _ started (polled s calm)) refl refl

process_batch-IsSettled_example :
    (row : OutboxRow) × (find_row 1 (process_batch counters calm one_row).1.table ≡ some row)
    × IsSettled (calm.settled 1) (reported counters calm [] invoice_row one_row) invoice_row row
unfolding select_batch sort_rows insert_row is_due
process_batch-IsSettled_example =
    process_batch-IsSettled counters calm [] invoice_row [] one_row refl (refl, tt) refl
