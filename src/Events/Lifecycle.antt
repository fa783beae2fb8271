-- ===== src/Events/Lifecycle.antt =====
-- The life of an outbox row: published, delivered, failed, dead-lettered, sent back. The steps are
-- those of crates/shared-kernel/src/events/{publisher,dispatcher}.rs and of `DeadLetters` in
-- crates/module-orders/src/services.rs.
use rust_api_modular_monolit.Base.{
  ℕ, zero, suc, ◌≤◌, ◌≡◌, refl, ◌⊎◌, String, Bool, true, false, not, ◌&&◌, List, [], ◌∷◌, Option,
  none, some, arith, nat_eq, is_some, inl, inr, Option-cases, get_elem?, All, All-and,
}
use rust_api_modular_monolit.Base.Result.{ok}
use rust_api_modular_monolit.Base.Text.{count_chars, count_chars-take_chars-le}
use rust_api_modular_monolit.Events.Outbox.{
  OutboxRow, Envelope, new_row, publish, is_due, select_batch,
}
use rust_api_modular_monolit.Events.Dispatcher.{
  Dispatcher, ModuleDatabases, Store, Conditions, settle_row, process_rows, process_batch, deliver,
  max_error_length, record_failure, mark_processed, retry_delays,
}
use rust_api_modular_monolit.Events.DeadLetters
use rust_api_modular_monolit.Events.Rows.{
  All-select_batch, All-update_row, All-publish, All-revive_letter, select_batch-due,
}
use rust_api_modular_monolit.Events.Retry.{error_of}

-- What stands between two states of a module's outbox and the modules' databases.
pub data Step {E D : Type 0} (d : Dispatcher E D) : Store D → Store D → Type 0 where
  published :
      (s : Store D) (now : ℕ) (event : Envelope) (table : List OutboxRow)
      → publish now event s.table ≡ ok table
      → Step d s (record s { table = table })
  polled : (s : Store D) (c : Conditions) → Step d s (process_batch d c s).1
  sent_back :
      (s : Store D) (now id : ℕ)
      → Step d s (record s { table = (DeadLetters.retry now id s.table).1 })

-- The states that the steps lead to from a state.
pub data Reachable {E D : Type 0} (d : Dispatcher E D) (start : Store D) : Store D → Type 0 where
  started : Reachable d start start
  stepped : (s t : Store D) → Reachable d start s → Step d s t → Reachable d start t

-- What holds of every row: at most six failures are counted; a row is dead exactly at the sixth; no
-- row is both processed and dead; the text kept of an error is within its bound.
pub record IsSound (row : OutboxRow) : Type 0 where
  pub counted : row.attempts ≤ 6
  pub dead : is_some row.dead_lettered_at ≡ nat_eq row.attempts 6
  pub settled : (is_some row.processed_at && is_some row.dead_lettered_at) ≡ false
  pub bounded : count_chars (error_of row.last_error) ≤ max_error_length

pub is_due-open :
    (now : ℕ) (row : OutboxRow)
    → is_due now row ≡ true
    → (row.processed_at ≡ none) × (row.dead_lettered_at ≡ none)
unfolding is_due
is_due-open now row h = ground arith

retry_delays-cases :
    (n : ℕ)
    → n ≤ 5
    → ((delay : ℕ) × (get_elem? retry_delays n ≡ some delay) × (n ≤ 4))
      ⊎ ((get_elem? retry_delays n ≡ none) × (n ≡ 5))
retry_delays-cases zero h = inl (_, refl, omega arith)
retry_delays-cases (suc zero) h = inl (_, refl, omega arith)
retry_delays-cases (suc (suc zero)) h = inl (_, refl, omega arith)
retry_delays-cases (suc (suc (suc zero))) h = inl (_, refl, omega arith)
retry_delays-cases (suc (suc (suc (suc zero)))) h = inl (_, refl, omega arith)
retry_delays-cases (suc (suc (suc (suc (suc zero))))) h = inr (refl, refl)
retry_delays-cases (suc (suc (suc (suc (suc (suc n)))))) h = ground arith

record_failure-IsSound :
    (now : ℕ) (error : String) (row : OutboxRow)
    → IsSound row
    → row.processed_at ≡ none
    → row.dead_lettered_at ≡ none
    → IsSound (record_failure now error row)
unfolding record_failure
record_failure-IsSound now error row sound unprocessed alive =
    elim (retry_delays-cases row.attempts (ground (arith, sound.dead, sound.counted))) [
      | inl (delay, e, n) ↦
          rw (e, record_failure)
            (record {
              counted = omega arith;
              dead = ground arith;
              settled = rw unprocessed refl;
              bounded = count_chars-take_chars-le max_error_length error;
            })
      | inr (e, n) ↦
          rw (e, record_failure)
            (record {
              counted = omega arith;
              dead = ground arith;
              settled = rw unprocessed refl;
              bounded = count_chars-take_chars-le max_error_length error;
            })
    ]

settle_row-IsSound :
    (now : ℕ) (outcome : Option String) (row : OutboxRow)
    → IsSound row
    → row.processed_at ≡ none
    → row.dead_lettered_at ≡ none
    → IsSound (settle_row now outcome row)
unfolding settle_row mark_processed
settle_row-IsSound now none row sound unprocessed alive = record {
  counted = sound.counted;
  dead = sound.dead;
  settled = rw alive refl;
  bounded = sound.bounded;
}
settle_row-IsSound now (some error) row sound unprocessed alive =
    record_failure-IsSound now error row sound unprocessed alive

new_row-IsSound :
    (now : ℕ) (event : Envelope) (payload : String) → IsSound (new_row now event payload)
unfolding count_chars
new_row-IsSound now event payload = record {
  counted = omega arith;
  dead = refl;
  settled = refl;
  bounded = omega arith;
}

revive-IsSound : (now : ℕ) (row : OutboxRow) → IsSound row → IsSound (DeadLetters.revive now row)
revive-IsSound now row sound = record {
  counted = omega arith;
  dead = refl;
  settled = ground arith;
  bounded = sound.bounded;
}

-- What a batch knows of its rows.
abbrev pub IsOpen : OutboxRow → Type 0
IsOpen row = IsSound row × (row.processed_at ≡ none) × (row.dead_lettered_at ≡ none)

select_batch-IsOpen :
    (now : ℕ) (locked : OutboxRow → Bool) (table : List OutboxRow)
    → All IsSound table
    → All IsOpen (select_batch now locked table)
select_batch-IsOpen now locked table h =
    All-and IsSound (λ row. (is_due now row && not (locked row)) ≡ true) IsOpen
      (λ row sound due.
        (let fresh = is_due-open now row (ground arith) in (sound, fresh.0, fresh.1)))
      (select_batch now locked table) (All-select_batch IsSound now locked table h)
      (select_batch-due now locked table)

module _ {E D : Type 0} (d : Dispatcher E D) where
  process_rows-IsSound :
      (c : Conditions) (batch : List OutboxRow) (s : Store D)
      → All IsOpen batch
      → All IsSound s.table
      → All IsSound (process_rows d c batch s).table
  unfolding process_rows
  process_rows-IsSound c [] s fresh sound = sound
  process_rows-IsSound c (message ∷ batch) s fresh sound = process_rows-IsSound c batch _ fresh.1 (
      All-update_row IsSound message.id _ s.table
        (λ _ _ _.
          settle_row-IsSound (c.settled message.id) (deliver d c.faults message s.databases).0
            message fresh.0.0 fresh.0.1 fresh.0.2)
        sound)

  process_batch-IsSound :
      (c : Conditions) (s : Store D)
      → All IsSound s.table
      → All IsSound (process_batch d c s).1.table
  unfolding process_batch
  process_batch-IsSound c s sound = elim (Option-cases c.batch_fault) [
    | inl e ↦
        rw (e, process_batch)
          (process_rows-IsSound c _ s (select_batch-IsOpen c.polled c.locked s.table sound) sound)
    | inr (fault, e) ↦ rw (e, process_batch) sound
  ]

  Step-IsSound : (s t : Store D) → Step d s t → All IsSound s.table → All IsSound t.table
  unfolding DeadLetters.retry
  Step-IsSound s t (published _ now event table h) sound =
      All-publish IsSound now event s.table table (new_row-IsSound now event) h sound
  Step-IsSound s t (polled _ c) sound = process_batch-IsSound c s sound
  Step-IsSound s t (sent_back _ now id) sound =
      All-revive_letter IsSound now id s.table (revive-IsSound now) sound

  -- In every state that an empty outbox comes to by publishing, polling and sending back dead
  -- letters, in any order and whatever fails, every row counts at most six failures, is dead
  -- exactly at the sixth, is not both processed and dead, and keeps at most 2000 characters of
  -- its last error.
  pub Reachable-IsSound :
      (databases : ModuleDatabases D) (s : Store D)
      → Reachable d (record { table = []; databases = databases }) s
      → All IsSound s.table
  Reachable-IsSound databases s started = tt
  Reachable-IsSound databases s (stepped r _ path step) =
      Step-IsSound r s step (Reachable-IsSound databases r path)
