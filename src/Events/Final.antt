-- ===== src/Events/Final.antt =====
-- That a processed row stays as it is: the update of `process_batch` in
-- crates/shared-kernel/src/events/dispatcher.rs reaches only the rows of the batch.
use rust_api_modular_monolit.Base.{
  ℕ, ◌≡◌, refl, sym, subst, ◌∙◌, ◌⊎◌, String, Bool, true, false, not, ◌&&◌, ◌||◌, List, [], ◌∷◌,
  ◌++◌, Option, none, some, arith, inl, inr, Option-cases, Bool-cases, All, All-and, find_first,
  nat_eq, is_some, get_elem?,
}
use rust_api_modular_monolit.Events.Outbox.{
  OutboxRow, has_id, new_row, update_row, is_due, select_batch,
}
use rust_api_modular_monolit.Events.Dispatcher.{
  Dispatcher, ModuleDatabases, Store, Conditions, settle_row, process_rows, process_batch, deliver,
  record_failure, mark_processed, retry_delays,
}
use rust_api_modular_monolit.Events.DeadLetters
use rust_api_modular_monolit.Events.Rows.{publish-ok, All-select_batch, select_batch-due}
use rust_api_modular_monolit.Events.Lifecycle.{
  Step, published, polled, sent_back, Reachable, started, stepped, IsSound, is_due-open,
  Reachable-IsSound,
}

abbrev pub find_row : ℕ → List OutboxRow → Option OutboxRow
find_row id = find_first (λ row. nat_eq row.id id)

-- The id is a primary key.
abbrev pub Distinct : List OutboxRow → Type 0
Distinct [] = Unit
Distinct (row ∷ rows) = (has_id row.id rows ≡ false) × Distinct rows

-- Each row that has the id is a given one.
abbrev pub Only : ℕ → OutboxRow → List OutboxRow → Type 0
Only id row = All (λ r. (nat_eq r.id id ≡ false) ⊎ (r ≡ row))

pub has_id-none :
    (id : ℕ) (row : OutboxRow) (table : List OutboxRow)
    → has_id id table ≡ false
    → Only id row table
has_id-none id row [] h = tt
has_id-none id row (r ∷ table) h = (inl (ground arith), has_id-none id row table (ground arith))

pub find_row-Only :
    (id : ℕ) (row : OutboxRow) (table : List OutboxRow)
    → Distinct table
    → find_row id table ≡ some row
    → Only id row table
find_row-Only id row [] unique h = tt
find_row-Only id row (r ∷ table) unique h = elim (Bool-cases (nat_eq r.id id)) [
  | inl e ↦
      let found : some r ≡ some row = rw e at h in
      let same : r.id ≡ id = ground arith in
      (inr cc, has_id-none id row table (rw (sym same) unique.0))
  | inr e ↦ (inl e, find_row-Only id row table unique.1 (rw e at h))
]

find_row-All :
    (P : OutboxRow → Type 0) (id : ℕ) (row : OutboxRow) (table : List OutboxRow)
    → All P table
    → find_row id table ≡ some row
    → P row
find_row-All P id row [] all h = cc
find_row-All P id row (r ∷ table) all h = elim (Bool-cases (nat_eq r.id id)) [
  | inl e ↦
      let found : some r ≡ some row = rw e at h in let same : r ≡ row = cc in subst P same all.0
  | inr e ↦ find_row-All P id row table all.1 (rw e at h)
]

-- A batch has no row whose id is that of a processed row.
abbrev pub Spares : ℕ → List OutboxRow → Type 0
Spares id = All (λ r. nat_eq r.id id ≡ false)

select_batch-Spares :
    (now id : ℕ) (locked : OutboxRow → Bool) (row : OutboxRow) (table : List OutboxRow)
    → Only id row table
    → is_some row.processed_at ≡ true
    → Spares id (select_batch now locked table)
select_batch-Spares now id locked row table only processed =
    All-and (λ r. (nat_eq r.id id ≡ false) ⊎ (r ≡ row))
      (λ r. (is_due now r && not (locked r)) ≡ true) (λ r. nat_eq r.id id ≡ false)
      (λ r either due. elim either [
        | inl e ↦ e
        | inr e ↦
            let fresh : r.processed_at ≡ none = (is_due-open now r (ground arith)).0 in
            let no : is_some r.processed_at ≡ true = rw e processed in absurd (ground arith)
      ])
      (select_batch now locked table)
      (All-select_batch (λ r. (nat_eq r.id id ≡ false) ⊎ (r ≡ row)) now locked table only)
      (select_batch-due now locked table)

pub find_row-update_row :
    (id key : ℕ) (row : OutboxRow) (table : List OutboxRow)
    → row.id ≡ key
    → nat_eq key id ≡ false
    → find_row id (update_row key (λ _. row) table) ≡ find_row id table
unfolding update_row
find_row-update_row id key row [] keyed other = refl
find_row-update_row id key row (r ∷ table) keyed other =
    ground (arith, find_row-update_row id key row table keyed other)

pub settle_row-id :
    (now : ℕ) (outcome : Option String) (row : OutboxRow) → (settle_row now outcome row).id ≡ row.id
unfolding settle_row mark_processed record_failure
settle_row-id now none row = refl
settle_row-id now (some error) row = elim (Option-cases (get_elem? retry_delays row.attempts)) [
  | inl e ↦ rw (e, record_failure) refl
  | inr (delay, e) ↦ rw (e, record_failure) refl
]

has_id-update_row :
    (id key : ℕ) (row : OutboxRow) (table : List OutboxRow)
    → row.id ≡ key
    → has_id id (update_row key (λ _. row) table) ≡ has_id id table
unfolding update_row
has_id-update_row id key row [] keyed = refl
has_id-update_row id key row (r ∷ table) keyed =
    ground (arith, has_id-update_row id key row table keyed)

update_row-Distinct :
    (key : ℕ) (row : OutboxRow) (table : List OutboxRow)
    → row.id ≡ key
    → Distinct table
    → Distinct (update_row key (λ _. row) table)
unfolding update_row
update_row-Distinct key row [] keyed unique = tt
update_row-Distinct key row (r ∷ table) keyed unique = ground (
  arith,
  has_id-update_row r.id key row table keyed,
  has_id-update_row row.id key row table keyed,
  update_row-Distinct key row table keyed,
)

has_id-revive_letter :
    (id now key : ℕ) (table : List OutboxRow)
    → has_id id (DeadLetters.revive_letter now key table) ≡ has_id id table
unfolding DeadLetters.revive_letter
has_id-revive_letter id now key [] = refl
has_id-revive_letter id now key (r ∷ table) = ground (arith, has_id-revive_letter id now key table)

revive_letter-Distinct :
    (now key : ℕ) (table : List OutboxRow)
    → Distinct table
    → Distinct (DeadLetters.revive_letter now key table)
unfolding DeadLetters.revive_letter
revive_letter-Distinct now key [] unique = tt
revive_letter-Distinct now key (r ∷ table) unique =
    ground (arith, has_id-revive_letter r.id now key table, revive_letter-Distinct now key table)

find_row-revive_letter :
    (id now key : ℕ) (row : OutboxRow) (table : List OutboxRow)
    → Only id row table
    → is_some row.dead_lettered_at ≡ false
    → find_row id (DeadLetters.revive_letter now key table) ≡ find_row id table
unfolding DeadLetters.revive_letter
find_row-revive_letter id now key row [] only alive = refl
find_row-revive_letter id now key row (r ∷ table) only alive = elim only.0 [
  | inl e ↦ ground (arith, e, find_row-revive_letter id now key row table only.1 alive)
  | inr e ↦
      let living : is_some r.dead_lettered_at ≡ false = rw e alive in
      ground (arith, living, find_row-revive_letter id now key row table only.1 alive)
]

find_row-append :
    (id : ℕ) (row : OutboxRow) (table more : List OutboxRow)
    → find_row id table ≡ some row
    → find_row id (table ++ more) ≡ some row
find_row-append id row [] more h = cc
find_row-append id row (r ∷ table) more h = ground (arith, find_row-append id row table more)

has_id-append :
    (id : ℕ) (row : OutboxRow) (table : List OutboxRow)
    → has_id id (table ++ row ∷ []) ≡ (has_id id table || nat_eq row.id id)
has_id-append id row [] = ground arith
has_id-append id row (r ∷ table) = ground (arith, has_id-append id row table)

append-Distinct :
    (row : OutboxRow) (table : List OutboxRow)
    → has_id row.id table ≡ false
    → Distinct table
    → Distinct (table ++ row ∷ [])
append-Distinct row [] new unique = (refl, tt)
append-Distinct row (r ∷ table) new unique =
    ground (arith, has_id-append r.id row table, append-Distinct row table)

module _ {E D : Type 0} (d : Dispatcher E D) where
  process_rows-Distinct :
      (c : Conditions) (batch : List OutboxRow) (s : Store D)
      → Distinct s.table
      → Distinct (process_rows d c batch s).table
  unfolding process_rows
  process_rows-Distinct c [] s unique = unique
  process_rows-Distinct c (message ∷ batch) s unique = process_rows-Distinct c batch _ (
      update_row-Distinct message.id _ s.table
        (settle_row-id (c.settled message.id) (deliver d c.faults message s.databases).0 message)
        unique)

  pub process_rows-Spares :
      (c : Conditions) (id : ℕ) (batch : List OutboxRow) (s : Store D)
      → Spares id batch
      → find_row id (process_rows d c batch s).table ≡ find_row id s.table
  unfolding process_rows
  process_rows-Spares c id [] s spares = refl
  process_rows-Spares c id (message ∷ batch) s spares =
      process_rows-Spares c id batch _ spares.1
      ∙ find_row-update_row id message.id _ s.table
          (settle_row-id (c.settled message.id) (deliver d c.faults message s.databases).0 message)
          spares.0

  Step-Distinct : (s t : Store D) → Step d s t → Distinct s.table → Distinct t.table
  unfolding DeadLetters.retry process_batch
  Step-Distinct s t (published _ now event table e) unique =
      let (payload, new, same) = publish-ok now event s.table table e in
      subst Distinct (sym same) (append-Distinct (new_row now event payload) s.table new unique)
  Step-Distinct s t (polled _ c) unique = elim (Option-cases c.batch_fault) [
    | inl e ↦ rw (e, process_batch) (process_rows-Distinct c _ s unique)
    | inr (fault, e) ↦ rw (e, process_batch) unique
  ]
  Step-Distinct s t (sent_back _ now id) unique = revive_letter-Distinct now id s.table unique

  -- In every state that an empty outbox comes to, no two rows have the same id.
  pub Reachable-Distinct :
      (databases : ModuleDatabases D) (s : Store D)
      → Reachable d (record { table = []; databases = databases }) s
      → Distinct s.table
  Reachable-Distinct databases s started = tt
  Reachable-Distinct databases s (stepped r _ path step) =
      Step-Distinct r s step (Reachable-Distinct databases r path)

  Step-final :
      (s t : Store D) (id : ℕ) (row : OutboxRow)
      → Step d s t
      → Distinct s.table
      → find_row id s.table ≡ some row
      → is_some row.processed_at ≡ true
      → is_some row.dead_lettered_at ≡ false
      → find_row id t.table ≡ some row
  unfolding DeadLetters.retry process_batch
  Step-final s t id row (published _ now event table e) unique there processed alive =
      let (payload, new, same) = publish-ok now event s.table table e in
      rw same (find_row-append id row s.table _ there)
  Step-final s t id row (polled _ c) unique there processed alive =
      elim (Option-cases c.batch_fault) [
        | inl e ↦
            rw (e, process_batch)
              (process_rows-Spares c id _ s (
                  select_batch-Spares c.polled id c.locked row s.table
                    (find_row-Only id row s.table unique there) processed)
                ∙ there)
        | inr (fault, e) ↦ rw (e, process_batch) there
      ]
  Step-final s t id row (sent_back _ now key) unique there processed alive =
      find_row-revive_letter id now key row s.table (find_row-Only id row s.table unique there)
        alive
      ∙ there

  Reachable-append : (a s t : Store D) → Reachable d a s → Reachable d s t → Reachable d a t
  Reachable-append a s t path started = path
  Reachable-append a s t path (stepped r _ rest step) =
      stepped r t (Reachable-append a s r path rest) step

  -- A row that is marked processed is never written again: in a state that an empty outbox comes
  -- to, and in every state that follows, the row found under its id is the same.
  pub Reachable-final :
      (databases : ModuleDatabases D) (s t : Store D) (id : ℕ) (row : OutboxRow)
      → Reachable d (record { table = []; databases = databases }) s
      → Reachable d s t
      → find_row id s.table ≡ some row
      → is_some row.processed_at ≡ true
      → find_row id t.table ≡ some row
  Reachable-final databases s t id row path started there processed = there
  Reachable-final databases s t id row path (stepped r _ rest step) there processed =
      let whole = Reachable-append _ s r path rest in
      let before = Reachable-final databases s r id row path rest there processed in
      Step-final r t id row step (Reachable-Distinct databases r whole) before processed (
        ground (
          arith,
          (find_row-All IsSound id row r.table (Reachable-IsSound d databases r whole)
              before).settled,
        ))
