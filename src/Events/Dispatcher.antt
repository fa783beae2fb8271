-- ===== src/Events/Dispatcher.antt =====
-- crates/shared-kernel/src/events/dispatcher.rs: one batch of a module's outbox. The events' type
-- `E` and the tables' type `D` are parameters; so are, for one batch, the faults of the modules'
-- databases and the readings of the clock.
use rust_api_modular_monolit.Base.{
  ℕ, ◌+◌, ◌*◌, String, Bool, List, [], ◌∷◌, Option, none, some, ◌==◌, eq_string, get_elem?, keep,
  take, length,
}
use rust_api_modular_monolit.Base.Map.{get, insert}
use rust_api_modular_monolit.Base.Result.{Result, ok, err, map_err}
use rust_api_modular_monolit.Base.Text.{format, join, take_chars}
use rust_api_modular_monolit.Events.Inbox
use rust_api_modular_monolit.Events.Inbox.{Database, Handle}
use rust_api_modular_monolit.Events.Outbox.{OutboxRow, select_batch, update_row}

-- `Subscription`
pub record Subscription (E D : Type 0) : Type 0 where
  pub event_type : String
  pub module_key : String
  pub handler_name : String
  pub handle : Handle E D

-- `EventDecoder`
abbrev pub EventDecoder : Type 0 → Type 0
EventDecoder E = String → Result E String

-- What a dispatcher holds: its decoders by event type, and every module's subscriptions.
pub record Dispatcher (E D : Type 0) : Type 0 where
  pub decoders : List (String × EventDecoder E)
  pub subscriptions : List (Subscription E D)

-- `ModuleDatabases`
abbrev pub ModuleDatabases : Type 0 → Type 0
ModuleDatabases D = List (String × Database D)

-- Whether, and how, a module's database refuses the transaction of an event and a handler.
abbrev pub Faults : Type 0
Faults = Inbox.InboxKey → Option String

abbrev pub seconds : ℕ → ℕ
seconds n = n * 1_000_000_000

-- `RETRY_DELAYS`
abbrev pub retry_delays : List ℕ
retry_delays = seconds 1 ∷ seconds 5 ∷ seconds 30 ∷ seconds 120 ∷ seconds 600 ∷ []

-- `MAX_ERROR_LENGTH`
abbrev pub max_error_length : ℕ
max_error_length = 2000

-- The row that `record_failure` writes. `attempts` counts failures before this one.
unfoldable pub record_failure : ℕ → String → OutboxRow → OutboxRow
record_failure now error row = elim (get_elem? retry_delays row.attempts) [
  | some delay ↦ record row {
    attempts = row.attempts + 1;
    last_error = some (take_chars max_error_length error);
    next_attempt_at = now + delay;
  }
  | none ↦ record row {
    attempts = row.attempts + 1;
    last_error = some (take_chars max_error_length error);
    dead_lettered_at = some now;
  }
]

unfoldable pub mark_processed : ℕ → OutboxRow → OutboxRow
mark_processed now row = record row { processed_at = some now }

abbrev pub report : List String → Option String
report [] = none
report (failure ∷ failures) = some (join "\n" (failure ∷ failures))

module _ {E D : Type 0} where
  -- `EventSubscriptions::for_event`
  abbrev pub for_event : String → List (Subscription E D) → List (Subscription E D)
  for_event event_type = keep (λ s. s.event_type == event_type)

  abbrev pub no_database : Subscription E D → String
  no_database s = format ("no database is registered for module '" ∷ s.module_key ∷ "'." ∷ [])

  abbrev pub note_failure : Subscription E D → Result Bool String → List String → List String
  note_failure s (ok applied) failures = failures
  note_failure s (err reason) failures = format (s.handler_name ∷ ": " ∷ reason ∷ []) ∷ failures

  module _ (faults : Faults) (id : ℕ) (event : E) where
    -- One round of the loop of `deliver` over the subscriptions.
    unfoldable pub deliver_to :
        Subscription E D → ModuleDatabases D → Result Bool String × ModuleDatabases D
    deliver_to s databases = elim (get s.module_key databases) [
      | none ↦ (err (no_database s), databases)
      | some db ↦
          let key : Inbox.InboxKey = (id, s.handler_name) in
          let (outcome, db') = Inbox.run (faults key) db key (s.handle event) in
          (outcome, insert s.module_key db' databases)
    ]

    -- The loop, with the failures in the order of the subscriptions.
    unfoldable pub deliver_all :
        List (Subscription E D) → ModuleDatabases D → List String × ModuleDatabases D
    deliver_all [] databases = ([], databases)
    deliver_all (s ∷ subscriptions) databases =
        let (outcome, databases') = deliver_to s databases in
        let (failures, databases'') = deliver_all subscriptions databases' in
        (note_failure s outcome failures, databases'')

  -- The first half of `deliver`: the message's decoder is found and reads the payload.
  abbrev pub read_event : Dispatcher E D → OutboxRow → Result E String
  read_event d message = elim (get message.event_type d.decoders) [
    | none ↦ err (format ("Unknown event type '" ∷ message.event_type ∷ "'." ∷ []))
    | some decode ↦
        map_err (λ reason. format ("Cannot read payload: " ∷ reason ∷ [])) (decode message.payload)
  ]

  -- `deliver`: `none` when every handler has succeeded.
  unfoldable pub deliver :
      Dispatcher E D → Faults → OutboxRow → ModuleDatabases D → Option String × ModuleDatabases D
  deliver d faults message databases = elim (read_event d message) [
    | err error ↦ (some error, databases)
    | ok event ↦
        let (failures, databases') =
          deliver_all faults message.id event (for_event message.event_type d.subscriptions)
            databases in
        (report failures, databases')
  ]

-- The publishing module's outbox and every module's database.
pub record Store (D : Type 0) : Type 0 where
  pub table : List OutboxRow
  pub databases : ModuleDatabases D

-- What one batch meets: the clock when it polls and after each message, other dispatchers' locks,
-- the faults of the handlers' databases, and whether its own transaction fails, after how many of
-- the batch's deliveries.
pub record Conditions : Type 0 where
  pub polled : ℕ
  pub settled : ℕ → ℕ
  pub locked : OutboxRow → Bool
  pub faults : Faults
  pub batch_fault : Option (ℕ × String)

-- The row after its delivery.
unfoldable pub settle_row : ℕ → Option String → OutboxRow → OutboxRow
unfolding mark_processed record_failure
settle_row now none row = mark_processed now row
settle_row now (some error) row = record_failure now error row

module _ {E D : Type 0} (d : Dispatcher E D) (c : Conditions) where
  -- The loop of `process_batch` over the batch. A row's update is computed from the row as it was
  -- read, which the lock keeps as it is.
  unfoldable pub process_rows : List OutboxRow → Store D → Store D
  process_rows [] s = s
  process_rows (message ∷ batch) s =
      let (error, databases) = deliver d c.faults message s.databases in
      process_rows batch (record {
        table =
            update_row message.id (λ _. settle_row (c.settled message.id) error message) s.table;
        databases = databases;
      })

  -- `process_batch`. When its own transaction fails the outbox is as it was, and what the handlers
  -- committed stands.
  unfoldable pub process_batch : Store D → Result ℕ String × Store D
  process_batch s =
      let batch = select_batch c.polled c.locked s.table in
      let s' = process_rows batch s in
      elim c.batch_fault [
        | none ↦ (ok (length batch), s')
        | some (delivered, fault) ↦
            (err fault, record s { databases = (process_rows (take delivered batch) s).databases })
      ]
