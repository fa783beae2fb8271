-- ===== src/Events/Settling.antt =====
-- That a batch settles each of its rows, by the outcome of that row's delivery: `process_batch` of
-- crates/shared-kernel/src/events/dispatcher.rs.
use rust_api_modular_monolit.Base.{
  ℕ, zero, suc, ◌≡◌, refl, ap, subst, ◌∙◌, Bool, false, not, ◌&&◌, ◌||◌, List, [], ◌∷◌, ◌++◌, none,
  some, arith, inl, inr, Bool-cases, All, All-imp, All-and, nat_eq, keep, take, All-middle,
}
use rust_api_modular_monolit.Events.Outbox.{
  OutboxRow, has_id, update_row, is_due, select_batch, insert_row, sort_rows, precedes, batch_size,
}
use rust_api_modular_monolit.Events.Dispatcher.{
  Dispatcher, Store, Conditions, settle_row, process_rows, process_batch, deliver,
}
use rust_api_modular_monolit.Events.Rows.{All-select_batch}
use rust_api_modular_monolit.Events.Final.{
  find_row, Distinct, Spares, settle_row-id, process_rows-Spares,
}

has_id-keep :
    (id : ℕ) (p : OutboxRow → Bool) (rows : List OutboxRow)
    → has_id id rows ≡ false
    → has_id id (keep p rows) ≡ false
has_id-keep id p [] h = refl
has_id-keep id p (r ∷ rows) h = ground (arith, has_id-keep id p rows)

keep-Distinct :
    (p : OutboxRow → Bool) (rows : List OutboxRow) → Distinct rows → Distinct (keep p rows)
keep-Distinct p [] unique = tt
keep-Distinct p (r ∷ rows) unique = ground (arith, has_id-keep r.id p rows, keep-Distinct p rows)

has_id-take :
    (id n : ℕ) (rows : List OutboxRow) → has_id id rows ≡ false → has_id id (take n rows) ≡ false
has_id-take id zero rows h = refl
has_id-take id (suc n) [] h = refl
has_id-take id (suc n) (r ∷ rows) h = ground (arith, has_id-take id n rows)

take-Distinct : (n : ℕ) (rows : List OutboxRow) → Distinct rows → Distinct (take n rows)
take-Distinct zero rows unique = tt
take-Distinct (suc n) [] unique = tt
take-Distinct (suc n) (r ∷ rows) unique =
    (has_id-take r.id n rows unique.0, take-Distinct n rows unique.1)

has_id-insert_row :
    (id : ℕ) (row : OutboxRow) (rows : List OutboxRow)
    → has_id id (insert_row row rows) ≡ (nat_eq row.id id || has_id id rows)
unfolding insert_row
has_id-insert_row id row [] = refl
has_id-insert_row id row (r ∷ rows) = elim (Bool-cases (precedes row r)) [
  | inl e ↦ rw e refl
  | inr e ↦ rw e (ground (arith, has_id-insert_row id row rows))
]

insert_row-Distinct :
    (row : OutboxRow) (rows : List OutboxRow)
    → has_id row.id rows ≡ false
    → Distinct rows
    → Distinct (insert_row row rows)
unfolding insert_row
insert_row-Distinct row [] new unique = (refl, tt)
insert_row-Distinct row (r ∷ rows) new unique = elim (Bool-cases (precedes row r)) [
  | inl e ↦ rw e (new, unique)
  | inr e ↦ rw e (
    ground (arith, has_id-insert_row r.id row rows),
    insert_row-Distinct row rows (ground arith) unique.1,
  )
]

has_id-sort_rows : (id : ℕ) (rows : List OutboxRow) → has_id id (sort_rows rows) ≡ has_id id rows
unfolding sort_rows
has_id-sort_rows id [] = refl
has_id-sort_rows id (r ∷ rows) =
    has_id-insert_row id r (sort_rows rows)
    ∙ ap (λ b. nat_eq r.id id || b) (has_id-sort_rows id rows)

sort_rows-Distinct : (rows : List OutboxRow) → Distinct rows → Distinct (sort_rows rows)
unfolding sort_rows
sort_rows-Distinct [] unique = tt
sort_rows-Distinct (r ∷ rows) unique =
    insert_row-Distinct r (sort_rows rows) (has_id-sort_rows r.id rows ∙ unique.0)
      (sort_rows-Distinct rows unique.1)

-- The rows of a batch are told apart by their ids.
select_batch-Distinct :
    (now : ℕ) (locked : OutboxRow → Bool) (table : List OutboxRow)
    → Distinct table
    → Distinct (select_batch now locked table)
unfolding select_batch
select_batch-Distinct now locked table unique =
    take-Distinct batch_size _ (
      sort_rows-Distinct _ (keep-Distinct (λ row. is_due now row && not (locked row)) table unique))

-- Each row of a table is what its id finds.
others :
    (r : OutboxRow) (rows : List OutboxRow)
    → has_id r.id rows ≡ false
    → All (λ x. nat_eq r.id x.id ≡ false) rows
others r [] h = tt
others r (x ∷ rows) h = (ground arith, others r rows (ground arith))

table-found :
    (table : List OutboxRow) → Distinct table → All (λ r. find_row r.id table ≡ some r) table
table-found [] unique = tt
table-found (r ∷ table) unique = (
  ground arith,
  All-and (λ x. nat_eq r.id x.id ≡ false) (λ x. find_row x.id table ≡ some x)
      (λ x. find_row x.id (r ∷ table) ≡ some x) (λ x apart found. rw apart found) table
      (others r table unique.0) (table-found table unique.1),
)

spared-before :
    (before : List OutboxRow) (message : OutboxRow) (after : List OutboxRow)
    → Distinct (before ++ message ∷ after)
    → Spares message.id before
spared-before [] message after unique = tt
spared-before (r ∷ before) message after unique = (
  All-middle (λ x. nat_eq r.id x.id ≡ false) before message after (others r _ unique.0),
  spared-before before message after unique.1,
)

spared-after :
    (before : List OutboxRow) (message : OutboxRow) (after : List OutboxRow)
    → Distinct (before ++ message ∷ after)
    → Spares message.id after
spared-after [] message after unique =
    All-imp (λ x. nat_eq message.id x.id ≡ false) (λ x. nat_eq x.id message.id ≡ false)
      (λ x h. ground arith) after (others message after unique.0)
spared-after (r ∷ before) message after unique = spared-after before message after unique.1

found-update_row :
    (id : ℕ) (old new : OutboxRow) (table : List OutboxRow)
    → find_row id table ≡ some old
    → new.id ≡ id
    → find_row id (update_row id (λ _. new) table) ≡ some new
unfolding update_row
found-update_row id old new [] h keyed = cc
found-update_row id old new (r ∷ table) h keyed = ground (arith, found-update_row id old new table)

module _ {E D : Type 0} (d : Dispatcher E D) (c : Conditions) where
  process_rows-append :
      (before after : List OutboxRow) (s : Store D)
      → process_rows d c (before ++ after) s ≡ process_rows d c after (process_rows d c before s)
  unfolding process_rows
  process_rows-append [] after s = refl
  process_rows-append (r ∷ before) after s = process_rows-append before after _

  -- The row that the delivery of a message leaves, when the messages before it have been delivered.
  abbrev pub settled : List OutboxRow → OutboxRow → Store D → OutboxRow
  settled before message s =
      settle_row (c.settled message.id)
        (deliver d c.faults message (process_rows d c before s).databases).0 message

  process_rows-settles :
      (before : List OutboxRow) (message : OutboxRow) (after : List OutboxRow) (s : Store D)
      → Distinct (before ++ message ∷ after)
      → find_row message.id s.table ≡ some message
      → find_row message.id (process_rows d c (before ++ message ∷ after) s).table
        ≡ some (settled before message s)
  unfolding process_rows
  process_rows-settles before message after s unique there =
      let first = process_rows d c before s in
      let still =
        process_rows-Spares d c message.id before s (spared-before before message after unique)
        ∙ there in
      ap (λ (t : Store D). find_row message.id t.table)
        (process_rows-append before (message ∷ after) s)
      ∙ process_rows-Spares d c message.id after _ (spared-after before message after unique)
      ∙ found-update_row message.id message (settled before message s) first.table still (
          settle_row-id (c.settled message.id) (deliver d c.faults message first.databases).0
            message)

  -- A batch that commits settles each of its rows, once and by the outcome of that row's own
  -- delivery: the row of each message that it picked is marked processed when the delivery
  -- reported no error, and is a failure's row otherwise. The ids of the table are distinct.
  pub process_batch-settles :
      (before : List OutboxRow) (message : OutboxRow) (after : List OutboxRow) (s : Store D)
      → c.batch_fault ≡ none
      → Distinct s.table
      → select_batch c.polled c.locked s.table ≡ before ++ message ∷ after
      → find_row message.id (process_batch d c s).1.table ≡ some (settled before message s)
  unfolding process_batch process_rows
  process_batch-settles before message after s committed unique picked =
      let apart = subst Distinct picked (select_batch-Distinct c.polled c.locked s.table unique) in
      let found =
        All-select_batch (λ r. find_row r.id s.table ≡ some r) c.polled c.locked s.table
          (table-found s.table unique) in
      let there =
        All-middle (λ r. find_row r.id s.table ≡ some r) before message after
          (subst (All (λ r. find_row r.id s.table ≡ some r)) picked found) in
      rw (committed, process_batch, picked)
        (process_rows-settles before message after s apart there)
