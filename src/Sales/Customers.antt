-- ===== src/Sales/Customers.antt =====
-- crates/module-admin/src/events.rs behind the inbox, and what administration answers of a
-- customer's purchases (crates/module-admin/src/services.rs).
use rust_api_modular_monolit.Base.{
  ℕ, ◌^◌, ◌<◌, ◌≡◌, refl, ap, ◌∙◌, String, List, [], ◌∷◌, Option, none, some, arith, All, any,
  nat_eq, eq_nat, if◌then◌else◌, subst,
}
use rust_api_modular_monolit.Base.Result.{Result}
use rust_api_modular_monolit.Base.Map.{get}
use rust_api_modular_monolit.Events.Inbox.{InboxKey, Database, Handled}
use rust_api_modular_monolit.Orders.{InvoiceFinalized}
use rust_api_modular_monolit.Sales.{
  PurchaseSummary, handle_purchase, get_customer_purchases, or_nothing,
}
use rust_api_modular_monolit.Sales.Ledger.{
  IsDistinct, receive_all, acknowledged, tally, key_of, receive_all-IsBooked,
  receive_all-acknowledged,
}
use rust_api_modular_monolit.Sales.Summaries.{buy, Counts, handle_purchase-Counts}

-- `HANDLER_NAME`
abbrev pub administration_handler : String
administration_handler = "Admin.Modules.Events.InvoiceFinalizedHandler"

abbrev pub no_purchases : {Decimal : Type 0} → Database (List (ℕ × PurchaseSummary Decimal))
no_purchases = record { inbox = []; tables = [] }

module _ {Decimal : Type 0} (zero : Decimal) (plus : Decimal → Decimal → Decimal) (customer : ℕ)
    (store : Decimal → Option Decimal) where
  module _ (published : ℕ → InvoiceFinalized ℕ Decimal) where
    -- The summary that the events behind the keys come to.
    abbrev pub purchases_of : List InboxKey → PurchaseSummary Decimal
    purchases_of [] = or_nothing zero none
    purchases_of (key ∷ keys) = buy zero plus customer (published key.0) (purchases_of keys)

    tally-purchases_of :
        (keys : List InboxKey)
        → tally administration_handler
            (handle_purchase store plus)
            published
            (buy zero plus customer)
            (or_nothing zero none)
            keys
          ≡ purchases_of keys
    unfolding tally
    tally-purchases_of [] = refl
    tally-purchases_of (key ∷ keys) =
        ap (buy zero plus customer (published key.0)) (tally-purchases_of keys)

    abbrev handler :
        InvoiceFinalized ℕ Decimal
        → List (ℕ × PurchaseSummary Decimal)
        → Result (List (ℕ × PurchaseSummary Decimal)) String
    handler = handle_purchase store plus

    -- What administration answers of the customer after deliveries to its handler.
    pub record CountsPurchases (deliveries : List (ℕ × Option String)) (customers : List ℕ)
        (db : Database (List (ℕ × PurchaseSummary Decimal))) : Type 0 where
      pub distinct : IsDistinct db.inbox
      pub handled :
          All
            (λ id. Handled (key_of administration_handler handler published id) db)
            (acknowledged administration_handler handler published deliveries no_purchases)
      pub answered : get_customer_purchases zero customer customers db.tables ≡ (
          if any (nat_eq customer) customers then some (customer, purchases_of db.inbox) else none)
      pub fits : (purchases_of db.inbox).invoice_count < 2 ^ 31

    module _ (stored : (a b : Decimal) → store a ≡ some b → b ≡ a)
        (zero_plus : (a : Decimal) → plus zero a ≡ a) where
      -- Where a column keeps the amounts as they are and adding to zero changes nothing: whatever invoices are delivered to
      -- administration's handler, in whatever order, however often and with whatever faults, a
      -- customer who exists is answered the number, the total and the latest date of the events of
      -- theirs in the inbox, which has each event once and every one whose delivery reported no
      -- error; the number does not wrap around.
      pub receive_all-CountsPurchases :
          (deliveries : List (ℕ × Option String)) (customers : List ℕ)
          → CountsPurchases deliveries customers
              (receive_all administration_handler handler published deliveries no_purchases)
      unfolding tally get get_customer_purchases
      receive_all-CountsPurchases deliveries customers =
          let books =
            receive_all-IsBooked administration_handler handler published (buy zero plus customer)
              (or_nothing zero none) (Counts zero plus customer)
              (handle_purchase-Counts zero plus customer store stored zero_plus) deliveries
              no_purchases (record { distinct = tt; counted = (refl, omega arith) }) in
          record {
            distinct = books.distinct;
            handled =
                receive_all-acknowledged administration_handler handler published deliveries
                  no_purchases;
            answered =
                ap (λ row. if any (nat_eq customer) customers then some (customer, row) else none)
                  (books.counted.0 ∙ tally-purchases_of _);
            fits = subst (λ row. row.invoice_count < 2 ^ 31) (tally-purchases_of _) books.counted.1;
          }
