-- ===== src/Events/Outbox.antt =====
-- The table `OutboxMessage`: its rows, `EventPublisher::publish` of
-- crates/shared-kernel/src/events/publisher.rs, and the query by which a dispatcher picks rows.
-- An id is a number, in the order of `uuid`; a time is a number of nanoseconds.
use rust_api_modular_monolit.Base.{
  ℕ, String, Bool, not, ◌&&◌, ◌||◌, List, [], ◌∷◌, ◌++◌, Option, none, ltb, leb, nat_eq, is_some,
  if◌then◌else◌, take, keep, any,
}
use rust_api_modular_monolit.Base.Result.{Result, ok, err, ◌>>=◌}

pub record OutboxRow : Type 0 where
  pub id : ℕ
  pub event_type : String
  pub payload : String
  pub occurred_at : ℕ
  pub processed_at : Option ℕ
  pub attempts : ℕ
  pub last_error : Option String
  pub dead_lettered_at : Option ℕ
  pub next_attempt_at : ℕ

-- What `IntegrationEvent` tells of an event, with what serializing it comes to.
pub record Envelope : Type 0 where
  pub event_id : ℕ
  pub event_type : String
  pub occurred_at : ℕ
  pub payload : Result String String

abbrev pub has_id : ℕ → List OutboxRow → Bool
has_id id = any (λ row. nat_eq row.id id)

abbrev pub new_row : ℕ → Envelope → String → OutboxRow
new_row now event payload = record {
  id = event.event_id;
  event_type = event.event_type;
  payload = payload;
  occurred_at = event.occurred_at;
  processed_at = none;
  attempts = 0;
  last_error = none;
  dead_lettered_at = none;
  next_attempt_at = now;
}

-- `EventPublisher::publish`: the id is the primary key.
unfoldable pub publish : ℕ → Envelope → List OutboxRow → Result (List OutboxRow) String
publish now event table = do
  payload ← event.payload
  if has_id event.event_id table
      then err "duplicate key value violates unique constraint"
      else ok (table ++ new_row now event payload ∷ [])

-- `"ProcessedAt" IS NULL AND "DeadLetteredAt" IS NULL AND "NextAttemptAt" <= $1`
unfoldable pub is_due : ℕ → OutboxRow → Bool
is_due now row =
    not (is_some row.processed_at)
    && not (is_some row.dead_lettered_at)
    && leb row.next_attempt_at now

-- `ORDER BY "OccurredAt", "Id"`
unfoldable pub precedes : OutboxRow → OutboxRow → Bool
precedes a b =
    ltb a.occurred_at b.occurred_at || (nat_eq a.occurred_at b.occurred_at && leb a.id b.id)

unfoldable pub insert_row : OutboxRow → List OutboxRow → List OutboxRow
insert_row row [] = row ∷ []
insert_row row (r ∷ rows) = if precedes row r then row ∷ r ∷ rows else r ∷ insert_row row rows

unfoldable pub sort_rows : List OutboxRow → List OutboxRow
sort_rows [] = []
sort_rows (row ∷ rows) = insert_row row (sort_rows rows)

-- `BATCH_SIZE`
abbrev pub batch_size : ℕ
batch_size = 50

-- The dispatcher's query. `locked` tells the rows that another dispatcher's batch holds, which
-- `SKIP LOCKED` passes over.
unfoldable pub select_batch : ℕ → (OutboxRow → Bool) → List OutboxRow → List OutboxRow
select_batch now locked table =
    take batch_size (sort_rows (keep (λ row. is_due now row && not (locked row)) table))

-- `UPDATE … WHERE "Id" = $1`
unfoldable pub update_row : ℕ → (OutboxRow → OutboxRow) → List OutboxRow → List OutboxRow
update_row id f [] = []
update_row id f (row ∷ rows) =
    if nat_eq row.id id then f row ∷ update_row id f rows else row ∷ update_row id f rows
