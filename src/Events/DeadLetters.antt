-- ===== src/Events/DeadLetters.antt =====
-- crates/module-orders/src/services.rs: `DeadLetters`, which lists the dead rows of an outbox and
-- sends one back for delivery.
use rust_api_modular_monolit.Base.{
  ℕ, Bool, ◌&&◌, List, [], ◌∷◌, Option, none, nat_eq, leb, is_some, if◌then◌else◌, keep, any,
  get_or, map, String,
}
use rust_api_modular_monolit.Events.Outbox.{OutboxRow}

-- `DeadLetter`
pub record DeadLetter : Type 0 where
  pub id : ℕ
  pub event_type : String
  pub occurred_at : ℕ
  pub attempts : ℕ
  pub last_error : Option String
  pub dead_lettered_at : ℕ

abbrev pub is_dead : OutboxRow → Bool
is_dead row = is_some row.dead_lettered_at

-- A row of the query, whose `DeadLetteredAt` is not null.
abbrev pub dead_letter : OutboxRow → DeadLetter
dead_letter row = record {
  id = row.id;
  event_type = row.event_type;
  occurred_at = row.occurred_at;
  attempts = row.attempts;
  last_error = row.last_error;
  dead_lettered_at = get_or 0 row.dead_lettered_at;
}

-- `ORDER BY "DeadLetteredAt"`
abbrev pub insert_letter : DeadLetter → List DeadLetter → List DeadLetter
insert_letter letter [] = letter ∷ []
insert_letter letter (l ∷ letters) =
    if leb letter.dead_lettered_at l.dead_lettered_at
    then letter ∷ l ∷ letters
    else l ∷ insert_letter letter letters

abbrev pub sort_letters : List DeadLetter → List DeadLetter
sort_letters [] = []
sort_letters (letter ∷ letters) = insert_letter letter (sort_letters letters)

-- `DeadLetters::list`
unfoldable pub list : List OutboxRow → List DeadLetter
list table = sort_letters (map dead_letter (keep is_dead table))

abbrev pub revive : ℕ → OutboxRow → OutboxRow
revive now row = record row { attempts = 0; dead_lettered_at = none; next_attempt_at = now }

abbrev pub is_letter : ℕ → OutboxRow → Bool
is_letter id row = nat_eq row.id id && is_dead row

unfoldable pub revive_letter : ℕ → ℕ → List OutboxRow → List OutboxRow
revive_letter now id [] = []
revive_letter now id (row ∷ rows) =
    if is_letter id row
    then revive now row ∷ revive_letter now id rows
    else row ∷ revive_letter now id rows

-- `DeadLetters::retry`
unfoldable pub retry : ℕ → ℕ → List OutboxRow → Bool × List OutboxRow
retry now id table = (any (is_letter id) table, revive_letter now id table)
