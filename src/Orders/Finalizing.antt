-- ===== src/Orders/Finalizing.antt =====
-- What one call of `finalize_invoice` (crates/module-orders/src/services.rs) does on every branch.
use rust_api_modular_monolit.Base.{
  ◌≡◌, ◌≢◌, ◌⊎◌, inl, inr, refl, sym, subst, String, [], ◌∷◌, ◌++◌, Option, none, some, arith, ◌==◌,
  eq_string, Bool-cases, Option-cases, if_true, if_false,
}
use rust_api_modular_monolit.Base.Result.{Result, ok, Result-cases}
use rust_api_modular_monolit.Events.Outbox.{Envelope, new_row, publish}
use rust_api_modular_monolit.Events.Rows.{publish-payload}
use rust_api_modular_monolit.Orders.{
  Invoice, FinalizeOutcome, finalized, finalized_status, State, Call, Numbers, find_invoice,
  lines_of, event_of, envelope_of, set_finalized, conclude, finalize_found, finalize_invoice,
}

module _ {I32 Decimal V : Type 0} (n : Numbers I32 Decimal) where
  -- The event of a call for an invoice.
  abbrev pub envelope : Call → I32 → Invoice I32 Decimal → State I32 Decimal V → Envelope
  envelope call id invoice s =
      envelope_of n (event_of n call invoice (lines_of n id s.database.lines))

  -- The invoice was there, not yet final, and is now; its event is in the outbox.
  abbrev pub Finalizes : Call → I32 → State I32 Decimal V → State I32 Decimal V → Type 0
  Finalizes call id s t =
      (invoice : Invoice I32 Decimal) × (payload : String) × (find_invoice n id s.database.invoices
        ≡ some invoice)
      × (invoice.status ≢ finalized_status)
      × ((envelope call id invoice s).payload ≡ ok payload)
      × (t.database.invoices ≡ set_finalized n id s.database.invoices)
      × (t.database.lines ≡ s.database.lines)
      × (t.database.outbox
          ≡ s.database.outbox ++ new_row call.published (envelope call id invoice s) payload ∷ [])

  -- One outcome per branch.
  abbrev pub Answers :
      Call
      → I32
      → State I32 Decimal V
      → Result FinalizeOutcome String × State I32 Decimal V
      → Type 0
  Answers call id s r =
      ((r.0 ≡ ok finalized) × Finalizes call id s r.1) ⊎ ((r.0 ≢ ok finalized) × (r.1 ≡ s))

  conclude-Answers :
      (call : Call) (id : I32) (invoice : Invoice I32 Decimal) (s : State I32 Decimal V)
      → find_invoice n id s.database.invoices ≡ some invoice
      → invoice.status ≢ finalized_status
      → Answers call id s
          (conclude n id (publish call.published (envelope call id invoice s) s.database.outbox) s)
  unfolding conclude
  conclude-Answers call id invoice s there draft =
      elim (Result-cases (publish call.published (envelope call id invoice s) s.database.outbox)) [
        | inl (table, e) ↦
            let (payload, serialized, same) =
              publish-payload call.published (envelope call id invoice s) s.database.outbox table
                e in
            rw (e, conclude)
              (inl (refl, (invoice, payload, there, draft, serialized, refl, refl, same)))
        | inr (error, e) ↦ rw (e, conclude) (inr (λ h. cc, refl))
      ]

  finalize_found-Answers :
      (call : Call) (id : I32) (found : Option (Invoice I32 Decimal)) (s : State I32 Decimal V)
      → find_invoice n id s.database.invoices ≡ found
      → Answers call id s (finalize_found n call id found s)
  unfolding finalize_found
  finalize_found-Answers call id none s there = inr (λ h. cc, refl)
  finalize_found-Answers call id (some invoice) s there =
      elim (Bool-cases (invoice.status == finalized_status)) [
        | inl e ↦ subst (Answers call id s) (sym (if_true e _ _)) (inr (λ h. cc, refl))
        | inr e ↦ subst (Answers call id s) (sym (if_false e _ _)) (
            conclude-Answers call id invoice s there
              (ground (arith, eq_string.equals_iff invoice.status finalized_status)))
      ]

  -- `finalize_invoice` answers `Finalized` exactly when it has done all of it: the invoice was there
  -- and not final, its status is now `Finalized`, and the outbox has gained the one row of its
  -- event, made of the invoice and its lines. Whatever else it answers, an error included, the
  -- tables and the cache are as they were.
  pub finalize_invoice-Answers :
      (call : Call) (id : I32) (s : State I32 Decimal V)
      → Answers call id s (finalize_invoice n call id s)
  unfolding finalize_invoice
  finalize_invoice-Answers call id s = elim (Option-cases call.fault) [
    | inl e ↦
        rw (e, finalize_invoice)
          (finalize_found-Answers call id (find_invoice n id s.database.invoices) s refl)
    | inr (fault, e) ↦ rw (e, finalize_invoice) (inr (λ h. cc, refl))
  ]
