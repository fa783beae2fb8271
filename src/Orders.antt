-- ===== src/Orders.antt =====
-- crates/module-orders/src/services.rs: `Invoices::finalize_invoice` over the tables of the orders
-- schema, its outbox and its cache. `i32` and `Decimal` are parameters, with what the code uses of
-- them: equality, order and printing of ids, and the two zeros. Serializing an event is a parameter
-- too, and a failure of the database is an argument.
pub mod Finalizing
pub mod Telling
pub mod Refusing
pub mod Answering
pub mod Once
mod Tests
use rust_api_modular_monolit.Base.{
  ℕ, suc, ◌≡◌, refl, String, Bool, true, false, ◌&&◌, List, [], ◌∷◌, Option, none, some, Eq, ◌==◌,
  eq_nat, eq_string, if◌then◌else◌, keep, find_first, map, get_or,
}
use rust_api_modular_monolit.Base.Result.{Result, ok, err}
use rust_api_modular_monolit.Base.Text.{format}
use rust_api_modular_monolit.Events.Outbox.{OutboxRow, Envelope, publish}
use rust_api_modular_monolit.Caching.{CacheFacade, remove_by_tag, remove_entry}
use rust_api_modular_monolit.Caching.Key.{CacheKeyComposer, compose, render}

-- `InvoiceRow`
pub record Invoice (I32 Decimal : Type 0) : Type 0 where
  pub id : I32
  pub customer_id : Option I32
  pub invoice_date : ℕ
  pub billing_address : Option String
  pub billing_city : Option String
  pub billing_state : Option String
  pub billing_country : Option String
  pub billing_postal_code : Option String
  pub total : Decimal
  pub status : String

-- `InvoiceLineRow`
pub record InvoiceLine (I32 Decimal : Type 0) : Type 0 where
  pub id : I32
  pub invoice_id : Option I32
  pub track_id : Option I32
  pub unit_price : Option Decimal
  pub quantity : Option I32

-- `InvoiceFinalizedLine`
pub record InvoiceFinalizedLine (I32 Decimal : Type 0) : Type 0 where
  pub track_id : I32
  pub quantity : I32
  pub unit_price : Decimal

-- `InvoiceFinalized`
pub record InvoiceFinalized (I32 Decimal : Type 0) : Type 0 where
  pub event_id : ℕ
  pub occurred_at : ℕ
  pub invoice_id : I32
  pub customer_id : Option I32
  pub invoice_date : ℕ
  pub total : Decimal
  pub lines : List (InvoiceFinalizedLine I32 Decimal)

-- `FinalizeOutcome`
pub data FinalizeOutcome : Type 0 where
  finalized : FinalizeOutcome
  not_found : FinalizeOutcome
  already_finalized : FinalizeOutcome

-- `InvoiceStatus::Finalized`
abbrev pub finalized_status : String
finalized_status = "Finalized"

-- The tables of the orders schema.
pub record OrdersDatabase (I32 Decimal : Type 0) : Type 0 where
  pub invoices : List (Invoice I32 Decimal)
  pub lines : List (InvoiceLine I32 Decimal)
  pub outbox : List OutboxRow

-- The database and the cache of the module, whose values are of a type `V`.
pub record State (I32 Decimal V : Type 0) : Type 0 where
  pub database : OrdersDatabase I32 Decimal
  pub cache : CacheFacade V

-- What a call meets: the new event's id, the clock when the event is made and when it is published,
-- and a failure of the database.
pub record Call : Type 0 where
  pub event_id : ℕ
  pub now : ℕ
  pub published : ℕ
  pub fault : Option String

-- `INVOICE_TAGS[0]`
abbrev pub invoice_tag : String
invoice_tag = "orders:invoice"

-- What the code uses of `i32`, of `Decimal`, of the serializer and of the key composer.
pub record Numbers (I32 Decimal : Type 0) : Type 0 where
  pub equal : Eq I32
  pub at_most : I32 → I32 → Bool
  pub print : I32 → String
  pub zero : I32
  pub zero_decimal : Decimal
  pub serialize : InvoiceFinalized I32 Decimal → Result String String
  pub to_lowercase : String → String
  pub keys : CacheKeyComposer

module _ {I32 Decimal : Type 0} (n : Numbers I32 Decimal) where
  abbrev pub same_id : I32 → I32 → Bool
  same_id a b = n.equal.equals a b

  abbrev pub find_invoice : I32 → List (Invoice I32 Decimal) → Option (Invoice I32 Decimal)
  find_invoice id = find_first (λ invoice. same_id invoice.id id)

  abbrev pub is_line_of : I32 → Option I32 → Bool
  is_line_of id none = false
  is_line_of id (some invoice_id) = same_id invoice_id id

  abbrev pub insert_line :
      InvoiceLine I32 Decimal → List (InvoiceLine I32 Decimal) → List (InvoiceLine I32 Decimal)
  insert_line line [] = line ∷ []
  insert_line line (l ∷ lines) =
      if n.at_most line.id l.id then line ∷ l ∷ lines else l ∷ insert_line line lines

  abbrev pub sort_lines : List (InvoiceLine I32 Decimal) → List (InvoiceLine I32 Decimal)
  sort_lines [] = []
  sort_lines (line ∷ lines) = insert_line line (sort_lines lines)

  -- `WHERE "InvoiceId" = $1 ORDER BY "Id"`
  abbrev pub lines_of : I32 → List (InvoiceLine I32 Decimal) → List (InvoiceLine I32 Decimal)
  lines_of id lines = sort_lines (keep (λ line. is_line_of id line.invoice_id) lines)

  abbrev pub with_track :
      InvoiceLine I32 Decimal
      → Option I32
      → List (InvoiceFinalizedLine I32 Decimal)
      → List (InvoiceFinalizedLine I32 Decimal)
  with_track line none rest = rest
  with_track line (some track_id) rest =
      record {
        track_id = track_id;
        quantity = get_or n.zero line.quantity;
        unit_price = get_or n.zero_decimal line.unit_price;
      }
      ∷ rest

  -- The `filter_map` over the lines.
  unfoldable pub event_lines :
      List (InvoiceLine I32 Decimal) → List (InvoiceFinalizedLine I32 Decimal)
  event_lines [] = []
  event_lines (line ∷ lines) = with_track line line.track_id (event_lines lines)

  unfoldable pub event_of :
      Call → Invoice I32 Decimal → List (InvoiceLine I32 Decimal) → InvoiceFinalized I32 Decimal
  unfolding event_lines
  event_of call invoice lines = record {
    event_id = call.event_id;
    occurred_at = call.now;
    invoice_id = invoice.id;
    customer_id = invoice.customer_id;
    invoice_date = invoice.invoice_date;
    total = invoice.total;
    lines = event_lines lines;
  }

  -- What `publish` reads of the event.
  unfoldable pub envelope_of : InvoiceFinalized I32 Decimal → Envelope
  envelope_of event = record {
    event_id = event.event_id;
    event_type = "Orders.Contracts.Events.InvoiceFinalized";
    occurred_at = event.occurred_at;
    payload = n.serialize event;
  }

  -- `UPDATE orders."Invoice" SET "Status" = $2 WHERE "Id" = $1`
  unfoldable pub set_finalized : I32 → List (Invoice I32 Decimal) → List (Invoice I32 Decimal)
  set_finalized id [] = []
  set_finalized id (invoice ∷ invoices) =
      if same_id invoice.id id
      then record invoice { status = finalized_status } ∷ set_finalized id invoices
      else invoice ∷ set_finalized id invoices

  -- The key of one invoice's entry.
  abbrev pub invoice_key : I32 → String
  invoice_key id =
      render (
        compose n.to_lowercase n.keys "orders" "invoice" "v1" (format ("by-id:" ∷ n.print id ∷ [])))

  module _ {V : Type 0} where
    -- `finalize_invoice` from the insert into the outbox on.
    unfoldable pub conclude :
        I32
        → Result (List OutboxRow) String
        → State I32 Decimal V
        → Result FinalizeOutcome String × State I32 Decimal V
    unfolding set_finalized
    conclude id (err error) s = (err error, s)
    conclude id (ok table) s = (
      ok finalized,
      record {
        database = record s.database {
          invoices = set_finalized id s.database.invoices;
          outbox = table;
        };
        cache = remove_entry (invoice_key id) (remove_by_tag invoice_tag s.cache);
      },
    )

    -- `finalize_invoice` once the invoice has been looked up.
    unfoldable pub finalize_found :
        Call
        → I32
        → Option (Invoice I32 Decimal)
        → State I32 Decimal V
        → Result FinalizeOutcome String × State I32 Decimal V
    unfolding conclude event_of envelope_of
    finalize_found call id none s = (ok not_found, s)
    finalize_found call id (some invoice) s =
        if invoice.status == finalized_status
        then (ok already_finalized, s)
        else conclude id
            (publish call.published
              (envelope_of (event_of call invoice (lines_of id s.database.lines)))
              s.database.outbox)
            s

    -- `finalize_invoice`: a transaction that is not committed changes nothing.
    unfoldable pub finalize_invoice :
        Call → I32 → State I32 Decimal V → Result FinalizeOutcome String × State I32 Decimal V
    unfolding finalize_found
    finalize_invoice call id s = elim call.fault [
      | some fault ↦ (err fault, s)
      | none ↦ finalize_found call id (find_invoice id s.database.invoices) s
    ]

    -- The outcomes of a series of calls, and the state after it.
    unfoldable pub finalize_all :
        List (Call × I32)
        → State I32 Decimal V
        → List (I32 × Result FinalizeOutcome String) × State I32 Decimal V
    finalize_all [] s = ([], s)
    finalize_all ((call, id) ∷ calls) s =
        let (outcome, s') = finalize_invoice call id s in
        let (outcomes, s'') = finalize_all calls s' in ((id, outcome) ∷ outcomes, s'')
