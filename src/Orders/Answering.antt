-- ===== src/Orders/Answering.antt =====
-- What a call of `finalize_invoice` (crates/module-orders/src/services.rs) leaves in the tables and
-- in the outbox, told without its helpers: column by column and line by line.
use rust_api_modular_monolit.Base.{
  ◌≡◌, ◌≢◌, ◌⊎◌, inl, inr, refl, sym, subst, String, true, false, List, [], ◌∷◌, ◌++◌, none, some,
  Bool-cases, find_first,
}
use rust_api_modular_monolit.Base.Result.{Result, ok}
use rust_api_modular_monolit.Orders.{
  Invoice, InvoiceFinalized, FinalizeOutcome, finalized, State, Call, Numbers, lines_of, event_of,
  envelope_of, set_finalized, finalize_invoice,
}
use rust_api_modular_monolit.Orders.Telling.{IsEventOf, event_of-IsEventOf}
use rust_api_modular_monolit.Orders.Refusing.{Refuses, finalize_invoice-Decides}
use rust_api_modular_monolit.Orders.Finalizing.{Finalizes, finalize_invoice-Answers}

module _ {I32 Decimal : Type 0} (n : Numbers I32 Decimal) where
  -- The invoices of the table with the one of an id final, and every other as it was.
  abbrev Marks : I32 → List (Invoice I32 Decimal) → List (Invoice I32 Decimal) → Type 0
  Marks id [] [] = Unit
  Marks id (i ∷ before) (j ∷ after) =
      (((n.equal.equals i.id id ≡ true) × (j ≡ record i { status = "Finalized" }))
        ⊎ ((n.equal.equals i.id id ≡ false) × (j ≡ i)))
      × Marks id before after
  Marks id [] (j ∷ after) = ⊥
  Marks id (i ∷ before) [] = ⊥

  set_finalized-Marks :
      (id : I32) (invoices : List (Invoice I32 Decimal))
      → Marks id invoices (set_finalized n id invoices)
  unfolding set_finalized
  set_finalized-Marks id [] = tt
  set_finalized-Marks id (i ∷ invoices) = elim (Bool-cases (n.equal.equals i.id id)) [
    | inl e ↦ rw e (inl (e, refl), set_finalized-Marks id invoices)
    | inr e ↦ rw e (inr (e, refl), set_finalized-Marks id invoices)
  ]

  module _ {V : Type 0} where
    -- The invoice of the id was there and not final, it is now, and the outbox has one row more,
    -- that of its event.
    pub record IsFinalized (call : Call) (id : I32) (s t : State I32 Decimal V) : Type 0 where
      invoice : Invoice I32 Decimal
      event : InvoiceFinalized I32 Decimal
      payload : String
      was_there : find_first (λ i. n.equal.equals i.id id) s.database.invoices ≡ some invoice
      was_draft : invoice.status ≢ "Finalized"
      marked : Marks id s.database.invoices t.database.invoices
      same_lines : t.database.lines ≡ s.database.lines
      is_event : IsEventOf n call id invoice s.database.lines event
      serialized : n.serialize event ≡ ok payload
      told :
          t.database.outbox
          ≡ s.database.outbox
            ++ record {
              id = call.event_id;
              event_type = "Orders.Contracts.Events.InvoiceFinalized";
              payload = payload;
              occurred_at = call.now;
              processed_at = none;
              attempts = 0;
              last_error = none;
              dead_lettered_at = none;
              next_attempt_at = call.published;
            }
              ∷ []

    Finalizes-IsFinalized :
        (call : Call) (id : I32) (s t : State I32 Decimal V)
        → Finalizes n call id s t
        → IsFinalized call id s t
    unfolding envelope_of event_of
    Finalizes-IsFinalized call id s t
          (invoice, payload, there, draft, payload_of, marked, same, gained) =
        record {
          invoice = invoice;
          event = event_of n call invoice (lines_of n id s.database.lines);
          payload = payload;
          was_there = there;
          was_draft = draft;
          marked =
              subst (Marks id s.database.invoices) (sym marked)
                (set_finalized-Marks id s.database.invoices);
          same_lines = same;
          is_event = event_of-IsEventOf n call id invoice s.database.lines;
          serialized = payload_of;
          told = gained;
        }

    -- A call that answers `Finalized` has done all of it, and one that does not has done nothing and
    -- has a reason.
    abbrev pub IsAnswered :
        Call
        → I32
        → State I32 Decimal V
        → Result FinalizeOutcome String × State I32 Decimal V
        → Type 0
    IsAnswered call id s r =
        ((r.0 ≡ ok finalized) × IsFinalized call id s r.1) ⊎ (Refuses n call id s r.0 × (r.1 ≡ s))

    -- `finalize_invoice` either answers `Finalized`, or leaves the tables and the cache as they
    -- were and answers why: the database's error; `NotFound` where no invoice has the id;
    -- `AlreadyFinalized` where the invoice is final; the error of serializing the event; or that the
    -- outbox has the event's id. Where it answers `Finalized`, the invoice of the id was there and
    -- not final; every invoice of the id now has the status `Finalized`, and else no column of an
    -- invoice and no line has changed; and the outbox has one row more, not yet tried, of an event
    -- that tells the call's id and time, the invoice's id, customer, date and total, and in order the
    -- table's lines of the invoice that have a track, a missing quantity or price as zero.
    pub finalize_invoice-IsAnswered :
        (call : Call) (id : I32) (s : State I32 Decimal V)
        → IsAnswered call id s (finalize_invoice n call id s)
    finalize_invoice-IsAnswered call id s = elim (finalize_invoice-Answers n call id s) [
      | inl (answer, done) ↦ inl (answer, Finalizes-IsFinalized call id s _ done)
      | inr (other, same) ↦ elim (finalize_invoice-Decides n call id s) [
        | inl answer ↦ absurd (other answer)
        | inr why ↦ inr (why, same)
      ]
    ]
