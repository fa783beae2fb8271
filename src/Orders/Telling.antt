-- ===== src/Orders/Telling.antt =====
-- The event of an invoice that is made final (`finalize_invoice` of
-- crates/module-orders/src/services.rs), told without the helpers that make it.
use rust_api_modular_monolit.Base.{
  ◌≡◌, ◌⊎◌, inl, inr, refl, ap, ◌∙◌, Bool, true, false, List, [], ◌∷◌, Option, none, some, arith,
  Bool-cases, keep, length, get_or,
}
use rust_api_modular_monolit.Orders.{
  Invoice, InvoiceLine, InvoiceFinalized, InvoiceFinalizedLine, Call, Numbers, lines_of,
  insert_line, sort_lines, is_line_of, with_track, event_lines, event_of,
}

-- The lines of an event tell the lines of an invoice in turn, those without a track left out, and
-- a column that is not there as zero.
data TellsLines {I32 Decimal : Type 0} (n : Numbers I32 Decimal)
    : List (InvoiceLine I32 Decimal) → List (InvoiceFinalizedLine I32 Decimal) → Type 0 where
  all_told : TellsLines n [] []
  left_out :
      (line : InvoiceLine I32 Decimal) (lines : List (InvoiceLine I32 Decimal))
      (told : List (InvoiceFinalizedLine I32 Decimal))
      → line.track_id ≡ none
      → TellsLines n lines told
      → TellsLines n (line ∷ lines) told
  told_as :
      (line : InvoiceLine I32 Decimal) (lines : List (InvoiceLine I32 Decimal))
      (first : InvoiceFinalizedLine I32 Decimal) (told : List (InvoiceFinalizedLine I32 Decimal))
      → line.track_id ≡ some first.track_id
      → first.quantity ≡ get_or n.zero line.quantity
      → first.unit_price ≡ get_or n.zero_decimal line.unit_price
      → TellsLines n lines told
      → TellsLines n (line ∷ lines) (first ∷ told)

module _ {I32 Decimal : Type 0} (n : Numbers I32 Decimal) where
  -- A line names an invoice.
  abbrev names_invoice : I32 → Option I32 → Bool
  names_invoice id none = false
  names_invoice id (some invoice_id) = n.equal.equals invoice_id id

  -- No line comes after one that the order has behind it.
  abbrev IsOrdered : List (InvoiceLine I32 Decimal) → Type 0
  IsOrdered [] = Unit
  IsOrdered (a ∷ []) = Unit
  IsOrdered (a ∷ b ∷ rest) =
      ((n.at_most a.id b.id ≡ true) ⊎ (n.at_most b.id a.id ≡ false)) × IsOrdered (b ∷ rest)

  -- The lines of an invoice among those of the table: each as often as there, and in order.
  abbrev OwnLines : I32 → List (InvoiceLine I32 Decimal) → List (InvoiceLine I32 Decimal) → Type 0
  OwnLines id lines own =
      ((p : InvoiceLine I32 Decimal → Bool)
        → length (keep p own)
          ≡ length (keep p (keep (λ line. names_invoice id line.invoice_id) lines)))
      × IsOrdered own

  length-keep-insert_line :
      (p : InvoiceLine I32 Decimal → Bool) (line : InvoiceLine I32 Decimal)
      (lines : List (InvoiceLine I32 Decimal))
      → length (keep p (insert_line n line lines)) ≡ length (keep p (line ∷ lines))
  length-keep-insert_line p line [] = refl
  length-keep-insert_line p line (l ∷ lines) = ground (arith, length-keep-insert_line p line lines)

  length-keep-sort_lines :
      (p : InvoiceLine I32 Decimal → Bool) (lines : List (InvoiceLine I32 Decimal))
      → length (keep p (sort_lines n lines)) ≡ length (keep p lines)
  length-keep-sort_lines p [] = refl
  length-keep-sort_lines p (line ∷ lines) =
      ground
        (arith, length-keep-sort_lines p lines, length-keep-insert_line p line (sort_lines n lines))

  insert_line-IsOrdered :
      (line : InvoiceLine I32 Decimal) (lines : List (InvoiceLine I32 Decimal))
      → IsOrdered lines
      → IsOrdered (insert_line n line lines)
  insert_line-IsOrdered line [] h = tt
  insert_line-IsOrdered line (l ∷ []) h = elim (Bool-cases (n.at_most line.id l.id)) [
    | inl e ↦ rw e (inl e, tt)
    | inr e ↦ rw e (inr e, tt)
  ]
  insert_line-IsOrdered line (l ∷ m ∷ lines) h = elim (Bool-cases (n.at_most line.id l.id)) [
    | inl e ↦ rw e (inl e, h)
    | inr e ↦
        let rest = insert_line-IsOrdered line (m ∷ lines) h.1 in
        rw e (elim (Bool-cases (n.at_most line.id m.id)) [
          | inl f ↦ rw f (inr e, (inl f, h.1))
          | inr f ↦ rw f (h.0, rw f at rest)
        ])
  ]

  sort_lines-IsOrdered : (lines : List (InvoiceLine I32 Decimal)) → IsOrdered (sort_lines n lines)
  sort_lines-IsOrdered [] = tt
  sort_lines-IsOrdered (line ∷ lines) =
      insert_line-IsOrdered line (sort_lines n lines) (sort_lines-IsOrdered lines)

  with_track-TellsLines :
      (line : InvoiceLine I32 Decimal) (track : Option I32) (lines : List (InvoiceLine I32 Decimal))
      (told : List (InvoiceFinalizedLine I32 Decimal))
      → line.track_id ≡ track
      → TellsLines n lines told
      → TellsLines n (line ∷ lines) (with_track n line track told)
  with_track-TellsLines line none lines told e h = left_out line lines told e h
  with_track-TellsLines line (some track) lines told e h = told_as line lines _ told e refl refl h

  event_lines-TellsLines :
      (lines : List (InvoiceLine I32 Decimal)) → TellsLines n lines (event_lines n lines)
  unfolding event_lines
  event_lines-TellsLines [] = all_told
  event_lines-TellsLines (line ∷ lines) =
      with_track-TellsLines line line.track_id lines (event_lines n lines) refl
        (event_lines-TellsLines lines)

  names_lem : (id : I32) (named : Option I32) → is_line_of n id named ≡ names_invoice id named
  names_lem id none = refl
  names_lem id (some invoice_id) = refl

  kept_lines :
      (id : I32) (lines : List (InvoiceLine I32 Decimal))
      → keep (λ line. is_line_of n id line.invoice_id) lines
        ≡ keep (λ line. names_invoice id line.invoice_id) lines
  kept_lines id [] = refl
  kept_lines id (line ∷ lines) = ground (arith, kept_lines id lines, names_lem id line.invoice_id)

  lines_of-OwnLines :
      (id : I32) (lines : List (InvoiceLine I32 Decimal)) → OwnLines id lines (lines_of n id lines)
  lines_of-OwnLines id lines = (
    λ p.
        length-keep-sort_lines p (keep (λ line. is_line_of n id line.invoice_id) lines)
        ∙ ap (λ ls. length (keep p ls)) (kept_lines id lines),
    sort_lines-IsOrdered (keep (λ line. is_line_of n id line.invoice_id) lines),
  )

  -- The event of an invoice that a call has made final.
  pub record IsEventOf (call : Call) (id : I32) (invoice : Invoice I32 Decimal)
      (lines : List (InvoiceLine I32 Decimal)) (event : InvoiceFinalized I32 Decimal) : Type 0 where
    own : List (InvoiceLine I32 Decimal)
    own_lines : OwnLines id lines own
    tells : TellsLines n own event.lines
    same_event_id : event.event_id ≡ call.event_id
    same_time : event.occurred_at ≡ call.now
    same_invoice : event.invoice_id ≡ invoice.id
    same_customer : event.customer_id ≡ invoice.customer_id
    same_date : event.invoice_date ≡ invoice.invoice_date
    same_total : event.total ≡ invoice.total

  pub event_of-IsEventOf :
      (call : Call) (id : I32) (invoice : Invoice I32 Decimal)
      (lines : List (InvoiceLine I32 Decimal))
      → IsEventOf call id invoice lines (event_of n call invoice (lines_of n id lines))
  unfolding event_of
  event_of-IsEventOf call id invoice lines = record {
    own = lines_of n id lines;
    own_lines = lines_of-OwnLines id lines;
    tells = event_lines-TellsLines (lines_of n id lines);
    same_event_id = refl;
    same_time = refl;
    same_invoice = refl;
    same_customer = refl;
    same_date = refl;
    same_total = refl;
  }
