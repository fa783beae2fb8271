-- ===== src/Sales.antt =====
-- What catalog and administration keep of the invoices that orders finalizes: the handlers of
-- `InvoiceFinalized` in crates/module-catalog/src/events.rs and crates/module-admin/src/events.rs,
-- and the purchases that administration answers with. A table is a map by its primary key. An
-- `i32` is its bit pattern: Rust's `+=` wraps around in the release profile, PostgreSQL's `+` on
-- `integer` fails. A fault of a statement rolls the delivery back, which the inbox's argument says.
pub mod Ledger
pub mod Tracks
pub mod Lines
pub mod Catalog
pub mod Summaries
pub mod Customers
mod Tests
use rust_api_modular_monolit.Base.{
  ℕ, ◌+◌, ◌%◌, ◌^◌, String, Bool, not, ◌&&◌, List, [], ◌∷◌, Option, none, some, if◌then◌else◌, leb,
  ltb, nat_eq, eq_nat, any,
}
use rust_api_modular_monolit.Base.Result.{Result, ok, err, ◌>>=◌}
use rust_api_modular_monolit.Base.Map.{get, insert}
use rust_api_modular_monolit.Orders.{InvoiceFinalized, InvoiceFinalizedLine}

-- `+=` of `i32`
abbrev pub add_i32 : ℕ → ℕ → ℕ
add_i32 a b = (a + b) % 2 ^ 32

abbrev is_negative : ℕ → Bool
is_negative a = leb (2 ^ 31) a

-- Two numbers of one sign have a sum of the other.
abbrev pub overflows : ℕ → ℕ → Bool
overflows a b =
    if is_negative a
    then is_negative b && not (is_negative (add_i32 a b))
    else not (is_negative b) && is_negative (add_i32 a b)

-- PostgreSQL's sum of two `integer`s, which fails where it does not fit.
unfoldable pub checked_add : ℕ → ℕ → Option ℕ
checked_add a b = if overflows a b then none else some (add_i32 a b)

-- A row of `TrackSales`, without its key.
pub record TrackSales : Type 0 where
  pub times_sold : ℕ
  pub last_sold_at : Option ℕ

-- The `CASE` of both statements: the later of the date that is there and the event's.
abbrev pub latest : Option ℕ → ℕ → Option ℕ
latest none date = some date
latest (some last) date = if ltb last date then some date else some last

-- One line, added to its track's quantity or put at the end.
unfoldable pub add_quantity : ℕ → ℕ → List (ℕ × ℕ) → List (ℕ × ℕ)
add_quantity track quantity [] = (track, quantity) ∷ []
add_quantity track quantity ((t, q) ∷ sums) =
    let rest = add_quantity track quantity sums in
    if nat_eq t track then (t, add_i32 q quantity) ∷ sums else (t, q) ∷ rest

module _ {Decimal : Type 0} where
  -- The loop that makes `per_track`.
  unfoldable pub per_track : List (InvoiceFinalizedLine ℕ Decimal) → List (ℕ × ℕ) → List (ℕ × ℕ)
  unfolding add_quantity
  per_track [] sums = sums
  per_track (line ∷ lines) sums = per_track lines (add_quantity line.track_id line.quantity sums)

abbrev pub update_sales :
    ℕ → ℕ → TrackSales → Option ℕ → List (ℕ × TrackSales) → Result (List (ℕ × TrackSales)) String
update_sales date track row none table = err "integer out of range"
update_sales date track row (some times_sold) table = ok (
    insert track (record { times_sold = times_sold; last_sold_at = latest row.last_sold_at date })
      table)

-- The `INSERT` with its `ON CONFLICT`.
unfoldable pub upsert_sales :
    ℕ → ℕ → ℕ → List (ℕ × TrackSales) → Result (List (ℕ × TrackSales)) String
unfolding get insert checked_add
upsert_sales date track quantity table = elim (get track table) [
  | none ↦ ok (insert track (record { times_sold = quantity; last_sold_at = some date }) table)
  | some row ↦ update_sales date track row (checked_add row.times_sold quantity) table
]

-- The loop over `per_track`.
unfoldable pub record_sales :
    ℕ → List (ℕ × ℕ) → List (ℕ × TrackSales) → Result (List (ℕ × TrackSales)) String
unfolding upsert_sales
record_sales date [] table = ok table
record_sales date ((track, quantity) ∷ sums) table = do
  after ← upsert_sales date track quantity table
  record_sales date sums after

-- A row of `CustomerPurchaseSummary`, without its key.
pub record PurchaseSummary (Decimal : Type 0) : Type 0 where
  pub total_spent : Decimal
  pub invoice_count : ℕ
  pub last_purchase_at : Option ℕ

module _ {Decimal : Type 0} where
  -- `handle` of catalog's `InvoiceFinalizedHandler`
  unfoldable pub handle_sale :
      InvoiceFinalized ℕ Decimal → List (ℕ × TrackSales) → Result (List (ℕ × TrackSales)) String
  unfolding record_sales per_track
  handle_sale event table = record_sales event.invoice_date (per_track event.lines []) table

  -- `store` is what a column `numeric(12,2)` makes of a number, `plus` PostgreSQL's sum.
  module _ (store : Decimal → Option Decimal) (plus : Decimal → Decimal → Decimal) where
    abbrev pub update_summary :
        ℕ
        → ℕ
        → PurchaseSummary Decimal
        → Option Decimal
        → Option ℕ
        → List (ℕ × PurchaseSummary Decimal)
        → Result (List (ℕ × PurchaseSummary Decimal)) String
    update_summary customer_id date row none count table = err "numeric field overflow"
    update_summary customer_id date row (some total) none table = err "integer out of range"
    update_summary customer_id date row (some total) (some count) table = ok (
        insert customer_id
          (record {
            total_spent = total;
            invoice_count = count;
            last_purchase_at = latest row.last_purchase_at date;
          })
          table)

    -- The proposed row is inserted, or its `EXCLUDED` columns update the row that is there.
    abbrev pub insert_summary :
        ℕ
        → ℕ
        → Decimal
        → Option (PurchaseSummary Decimal)
        → List (ℕ × PurchaseSummary Decimal)
        → Result (List (ℕ × PurchaseSummary Decimal)) String
    insert_summary customer_id date excluded none table = ok (
        insert customer_id
          (record { total_spent = excluded; invoice_count = 1; last_purchase_at = some date })
          table)
    insert_summary customer_id date excluded (some row) table =
        update_summary customer_id date row (store (plus row.total_spent excluded))
          (checked_add row.invoice_count 1) table

    -- The `INSERT` of administration's handler, with its `ON CONFLICT`.
    unfoldable pub upsert_summary :
        ℕ
        → Decimal
        → ℕ
        → List (ℕ × PurchaseSummary Decimal)
        → Result (List (ℕ × PurchaseSummary Decimal)) String
    unfolding get insert checked_add
    upsert_summary customer_id total date table = elim (store total) [
      | none ↦ err "numeric field overflow"
      | some excluded ↦ insert_summary customer_id date excluded (get customer_id table) table
    ]

    abbrev pub summarize :
        Option ℕ
        → Decimal
        → ℕ
        → List (ℕ × PurchaseSummary Decimal)
        → Result (List (ℕ × PurchaseSummary Decimal)) String
    summarize none total date table = ok table
    summarize (some customer_id) total date table = upsert_summary customer_id total date table

    -- `handle` of administration's `InvoiceFinalizedHandler`
    unfoldable pub handle_purchase :
        InvoiceFinalized ℕ Decimal
        → List (ℕ × PurchaseSummary Decimal)
        → Result (List (ℕ × PurchaseSummary Decimal)) String
    unfolding upsert_summary
    handle_purchase event table = summarize event.customer_id event.total event.invoice_date table

  -- `unwrap_or` of `get_customer_purchases`
  abbrev pub or_nothing : Decimal → Option (PurchaseSummary Decimal) → PurchaseSummary Decimal
  or_nothing zero none = record { total_spent = zero; invoice_count = 0; last_purchase_at = none }
  or_nothing zero (some row) = row

  -- `get_customer_purchases`, over the ids of the customers and the summaries; the answer is the
  -- customer's id and the summary's columns.
  unfoldable pub get_customer_purchases :
      Decimal
      → ℕ
      → List ℕ
      → List (ℕ × PurchaseSummary Decimal)
      → Option (ℕ × PurchaseSummary Decimal)
  unfolding get
  get_customer_purchases zero id customers table =
      if any (nat_eq id) customers then some (id, or_nothing zero (get id table)) else none
