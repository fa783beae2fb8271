-- ===== src/Events/Rows.antt =====
-- Properties of every row of an outbox, through the operations of crates/shared-kernel/src/events
-- and `DeadLetters` of crates/module-orders/src/services.rs.
use rust_api_modular_monolit.Base.{
  ℕ, ◌≡◌, sym, subst, String, Bool, true, false, not, ◌&&◌, List, [], ◌∷◌, ◌++◌, arith, nat_eq, inl,
  inr, Bool-cases, All, All-append, All-take, All-keep, keep-All,
}
use rust_api_modular_monolit.Base.Result.{ok, Result-cases}
use rust_api_modular_monolit.Events.Outbox.{
  OutboxRow, Envelope, has_id, new_row, publish, is_due, insert_row, sort_rows, precedes,
  select_batch, update_row, batch_size,
}
use rust_api_modular_monolit.Events.DeadLetters

-- What a publication that succeeds comes to.
pub publish-ok :
    (now : ℕ) (event : Envelope) (table table' : List OutboxRow)
    → publish now event table ≡ ok table'
    → (payload : String) × (has_id event.event_id table ≡ false)
      × (table' ≡ table ++ new_row now event payload ∷ [])
unfolding publish
publish-ok now event table table' h = elim (Result-cases event.payload) [
  | inl (payload, e) ↦ elim (Bool-cases (has_id event.event_id table)) [
    | inl there ↦ absurd (ground (arith, (rw (e, there, publish) at h)))
    | inr new ↦
        let same : ok (table ++ new_row now event payload ∷ []) ≡ ok table' =
          rw (e, new, publish) at h in
        (payload, new, cc)
  ]
  | inr (reason, e) ↦ absurd (ground (arith, (rw (e, publish) at h)))
]

-- The row that a publication adds holds what serializing the event came to.
pub publish-payload :
    (now : ℕ) (event : Envelope) (table table' : List OutboxRow)
    → publish now event table ≡ ok table'
    → (payload : String) × (event.payload ≡ ok payload)
      × (table' ≡ table ++ new_row now event payload ∷ [])
unfolding publish
publish-payload now event table table' h = elim (Result-cases event.payload) [
  | inl (payload, e) ↦ elim (Bool-cases (has_id event.event_id table)) [
    | inl there ↦ absurd (ground (arith, (rw (e, there, publish) at h)))
    | inr new ↦
        let same : ok (table ++ new_row now event payload ∷ []) ≡ ok table' =
          rw (e, new, publish) at h in
        (payload, e, cc)
  ]
  | inr (reason, e) ↦ absurd (ground (arith, (rw (e, publish) at h)))
]

module _ {ℓ} (P : OutboxRow → Type ℓ) where
  All-insert_row :
      (row : OutboxRow) (rows : List OutboxRow) → P row → All P rows → All P (insert_row row rows)
  unfolding insert_row
  All-insert_row row [] p h = (p, tt)
  All-insert_row row (r ∷ rows) p h = elim (Bool-cases (precedes row r)) [
    | inl e ↦ rw e (p, h)
    | inr e ↦ rw e (h.0, All-insert_row row rows p h.1)
  ]

  All-sort_rows : (rows : List OutboxRow) → All P rows → All P (sort_rows rows)
  unfolding sort_rows
  All-sort_rows [] h = tt
  All-sort_rows (row ∷ rows) h = All-insert_row row (sort_rows rows) h.0 (All-sort_rows rows h.1)

  pub All-select_batch :
      (now : ℕ) (locked : OutboxRow → Bool) (table : List OutboxRow)
      → All P table
      → All P (select_batch now locked table)
  unfolding select_batch
  All-select_batch now locked table h =
      All-take P batch_size _
        (All-sort_rows _ (All-keep P (λ row. is_due now row && not (locked row)) table h))

  pub All-update_row :
      (id : ℕ) (f : OutboxRow → OutboxRow) (table : List OutboxRow)
      → ((row : OutboxRow) → row.id ≡ id → P row → P (f row))
      → All P table
      → All P (update_row id f table)
  unfolding update_row
  All-update_row id f [] k h = tt
  All-update_row id f (row ∷ rows) k h = elim (Bool-cases (nat_eq row.id id)) [
    | inl e ↦ rw e (k row (ground arith) h.0, All-update_row id f rows k h.1)
    | inr e ↦ rw e (h.0, All-update_row id f rows k h.1)
  ]

  pub All-revive_letter :
      (now id : ℕ) (table : List OutboxRow)
      → ((row : OutboxRow) → P row → P (DeadLetters.revive now row))
      → All P table
      → All P (DeadLetters.revive_letter now id table)
  unfolding DeadLetters.revive_letter
  All-revive_letter now id [] k h = tt
  All-revive_letter now id (row ∷ rows) k h = elim (Bool-cases (DeadLetters.is_letter id row)) [
    | inl e ↦ rw e (k row h.0, All-revive_letter now id rows k h.1)
    | inr e ↦ rw e (h.0, All-revive_letter now id rows k h.1)
  ]

  pub All-publish :
      (now : ℕ) (event : Envelope) (table table' : List OutboxRow)
      → ((payload : String) → P (new_row now event payload))
      → publish now event table ≡ ok table'
      → All P table
      → All P table'
  All-publish now event table table' k h all =
      let (payload, new, same) = publish-ok now event table table' h in
      subst (All P) (sym same) (All-append P table _ all (k payload, tt))

-- The rows of a batch were due and not locked.
pub select_batch-due :
    (now : ℕ) (locked : OutboxRow → Bool) (table : List OutboxRow)
    → All (λ row. (is_due now row && not (locked row)) ≡ true) (select_batch now locked table)
unfolding select_batch
select_batch-due now locked table =
    let P : OutboxRow → Type 0 = λ row. (is_due now row && not (locked row)) ≡ true in
    All-take P batch_size _
      (All-sort_rows P _ (keep-All (λ row. is_due now row && not (locked row)) table))
