-- ===== src/Sales/Tests.antt =====
-- The handlers on two invoices, one of them delivered three times.
use rust_api_modular_monolit.Base.{
  arith, ℕ, ◌+◌, ◌≡◌, refl, String, List, [], ◌∷◌, Option, none, some, eq_nat,
}
use rust_api_modular_monolit.Base.Map.{get, insert, remove}
use rust_api_modular_monolit.Events.Inbox.{run}
use rust_api_modular_monolit.Orders.{InvoiceFinalized, InvoiceFinalizedLine}
use rust_api_modular_monolit.Sales.{
  handle_purchase, handle_sale, record_sales, upsert_sales, per_track, add_quantity, checked_add,
}
use rust_api_modular_monolit.Sales.Ledger.{receive_all}
use rust_api_modular_monolit.Sales.Tracks.{sales_of}
use rust_api_modular_monolit.Sales.Catalog.{
  catalog_handler, no_sales, CountsSales, receive_all-CountsSales,
}
use rust_api_modular_monolit.Sales.Customers.{
  administration_handler, no_purchases, CountsPurchases, receive_all-CountsPurchases,
}

abbrev line : ℕ → ℕ → InvoiceFinalizedLine ℕ ℕ
line track quantity = record { track_id = track; quantity = quantity; unit_price = 99 }

abbrev published : ℕ → InvoiceFinalized ℕ ℕ
published id = record {
  event_id = id;
  occurred_at = 0;
  invoice_id = id;
  customer_id = some 5;
  invoice_date = 100 + id;
  total = 200;
  lines = line 7 2 ∷ line 8 1 ∷ line 7 3 ∷ [];
}

abbrev deliveries : List (ℕ × Option String)
deliveries = (1, some "down") ∷ (2, none) ∷ (1, none) ∷ (2, none) ∷ []

sold_twice :
    sales_of 7 (receive_all catalog_handler handle_sale published deliveries no_sales).tables
    ≡ (10, some 102)
unfolding receive_all run handle_sale record_sales upsert_sales per_track add_quantity checked_add
    get insert remove
sold_twice = refl

receive_all-CountsSales_example :
    CountsSales 7 published deliveries
      (receive_all catalog_handler handle_sale published deliveries no_sales)
receive_all-CountsSales_example = receive_all-CountsSales 7 published deliveries

abbrev kept : ℕ → Option ℕ
kept amount = some amount

kept-inj : (a b : ℕ) → kept a ≡ some b → b ≡ a
kept-inj a b h = cc

receive_all-CountsPurchases_example : CountsPurchases 0 ◌+◌ 5 kept published deliveries (5 ∷ []) (
    receive_all administration_handler (handle_purchase kept ◌+◌) published deliveries no_purchases)
receive_all-CountsPurchases_example =
    receive_all-CountsPurchases 0 ◌+◌ 5 kept published kept-inj (λ a. omega arith) deliveries
      (5 ∷ [])
