-- ===== src/Orders/Refusing.antt =====
-- Why `finalize_invoice` (crates/module-orders/src/services.rs) does not make an invoice final.
use rust_api_modular_monolit.Base.{
  ℕ, ◌≡◌, ◌⊎◌, inl, inr, refl, sym, subst, String, true, List, Option, none, some, arith, ◌==◌,
  eq_string, Bool-cases, Option-cases, if_true, if_false, find_first, any, nat_eq,
}
use rust_api_modular_monolit.Base.Result.{Result, ok, err, Result-cases}
use rust_api_modular_monolit.Events.Outbox.{OutboxRow, Envelope, publish, has_id}
use rust_api_modular_monolit.Orders.{
  Invoice, InvoiceFinalized, FinalizeOutcome, finalized, not_found, already_finalized,
  finalized_status, State, Call, Numbers, find_invoice, event_of, envelope_of, conclude,
  finalize_found, finalize_invoice,
}
use rust_api_modular_monolit.Orders.Finalizing.{envelope}
use rust_api_modular_monolit.Orders.Telling.{IsEventOf, event_of-IsEventOf}

-- What the outcome says of the state that the call met.
pub data Refuses {I32 Decimal V : Type 0} (n : Numbers I32 Decimal) (call : Call) (id : I32)
    (s : State I32 Decimal V) : Result FinalizeOutcome String → Type 0 where
  database_failed : (fault : String) → call.fault ≡ some fault → Refuses n call id s (err fault)
  none_found :
      find_first (λ i. n.equal.equals i.id id) s.database.invoices ≡ none
      → Refuses n call id s (ok not_found)
  was_final :
      (invoice : Invoice I32 Decimal)
      → find_first (λ i. n.equal.equals i.id id) s.database.invoices ≡ some invoice
      → invoice.status ≡ "Finalized"
      → Refuses n call id s (ok already_finalized)
  serializer_failed :
      (invoice : Invoice I32 Decimal) (event : InvoiceFinalized I32 Decimal) (error : String)
      → find_first (λ i. n.equal.equals i.id id) s.database.invoices ≡ some invoice
      → IsEventOf n call id invoice s.database.lines event
      → n.serialize event ≡ err error
      → Refuses n call id s (err error)
  id_taken :
      (error : String)
      → any (λ row. nat_eq row.id call.event_id) s.database.outbox ≡ true
      → Refuses n call id s (err error)

-- A publication that fails.
publish-err :
    (now : ℕ) (event : Envelope) (table : List OutboxRow) (error : String)
    → publish now event table ≡ err error
    → (event.payload ≡ err error) ⊎ (has_id event.event_id table ≡ true)
unfolding publish
publish-err now event table error h = elim (Result-cases event.payload) [
  | inl (payload, e) ↦ elim (Bool-cases (has_id event.event_id table)) [
    | inl there ↦ inr there
    | inr new ↦ absurd (ground (arith, (rw (e, new, publish) at h)))
  ]
  | inr (reason, e) ↦
      let same : Path (Result (List OutboxRow) String) (err reason) (err error) =
        rw (e, publish) at h in
      inl cc
]

module _ {I32 Decimal V : Type 0} (n : Numbers I32 Decimal) where
  -- A call has made the invoice final or says why not.
  abbrev pub Decides :
      Call
      → I32
      → State I32 Decimal V
      → Result FinalizeOutcome String × State I32 Decimal V
      → Type 0
  Decides call id s r = (r.0 ≡ ok finalized) ⊎ Refuses n call id s r.0

  conclude-Decides :
      (call : Call) (id : I32) (invoice : Invoice I32 Decimal) (s : State I32 Decimal V)
      → find_invoice n id s.database.invoices ≡ some invoice
      → Decides call id s (
          conclude n id (publish call.published (envelope n call id invoice s) s.database.outbox) s)
  unfolding conclude envelope_of event_of
  conclude-Decides call id invoice s there =
      elim (Result-cases
        (publish call.published (envelope n call id invoice s) s.database.outbox)) [
          | inl (table, e) ↦ rw (e, conclude) (inl refl)
          | inr (error, e) ↦
              rw (e, conclude)
                (inr
                  (elim (publish-err call.published (envelope n call id invoice s) s.database.outbox
                    error e) [
                      | inl failed ↦
                          serializer_failed invoice _ error there
                            (event_of-IsEventOf n call id invoice s.database.lines) failed
                      | inr taken ↦ id_taken error taken
                    ]))
        ]

  finalize_found-Decides :
      (call : Call) (id : I32) (found : Option (Invoice I32 Decimal)) (s : State I32 Decimal V)
      → find_invoice n id s.database.invoices ≡ found
      → Decides call id s (finalize_found n call id found s)
  unfolding finalize_found
  finalize_found-Decides call id none s there = inr (none_found there)
  finalize_found-Decides call id (some invoice) s there =
      elim (Bool-cases (invoice.status == finalized_status)) [
        | inl e ↦ subst (Decides call id s) (sym (if_true e _ _)) (
            inr (
              was_final invoice there
                (ground (arith, eq_string.equals_iff invoice.status finalized_status))))
        | inr e ↦
            subst (Decides call id s) (sym (if_false e _ _))
              (conclude-Decides call id invoice s there)
      ]

  pub finalize_invoice-Decides :
      (call : Call) (id : I32) (s : State I32 Decimal V)
      → Decides call id s (finalize_invoice n call id s)
  unfolding finalize_invoice
  finalize_invoice-Decides call id s = elim (Option-cases call.fault) [
    | inl e ↦
        let found = find_invoice n id s.database.invoices in
        let same : finalize_invoice n call id s ≡ finalize_found n call id found s =
          rw (e, finalize_invoice) refl in
        subst (Decides call id s) (sym same) (finalize_found-Decides call id found s refl)
    | inr (fault, e) ↦
        let same : finalize_invoice n call id s ≡ (err fault, s) = rw (e, finalize_invoice) refl in
        subst (Decides call id s) (sym same) (inr (database_failed fault e))
  ]
