-- ===== src/Sales/Catalog.antt =====
-- crates/module-catalog/src/events.rs behind the inbox: catalog's sales over any deliveries.
use rust_api_modular_monolit.Base.{
  ℕ, ◌+◌, ◌%◌, ◌^◌, ◌≡◌, refl, ap, ◌∙◌, String, List, [], ◌∷◌, Option, none, All,
}
use rust_api_modular_monolit.Base.Result.{ok}
use rust_api_modular_monolit.Base.Map.{get}
use rust_api_modular_monolit.Events.Inbox.{InboxKey, Database, Handled}
use rust_api_modular_monolit.Orders.{InvoiceFinalized}
use rust_api_modular_monolit.Sales.{TrackSales, handle_sale}
use rust_api_modular_monolit.Sales.Ledger.{
  IsDistinct, receive_all, acknowledged, tally, key_of, receive_all-IsBooked,
  receive_all-acknowledged,
}
use rust_api_modular_monolit.Sales.Tracks.{sales_of, units, mod_add}
use rust_api_modular_monolit.Sales.Lines.{sold, mentions, latest_if, sell_event, handle_sale-sells}

-- `HANDLER_NAME`
abbrev pub catalog_handler : String
catalog_handler = "Catalog.Modules.Events.InvoiceFinalizedHandler"

abbrev pub no_sales : Database (List (ℕ × TrackSales))
no_sales = record { inbox = []; tables = [] }

module _ {Decimal : Type 0} (track : ℕ) where
  module _ (published : ℕ → InvoiceFinalized ℕ Decimal) where
    -- The units of the track that the events behind the keys sold.
    abbrev pub units_of : List InboxKey → ℕ
    units_of [] = 0
    units_of (key ∷ keys) = units_of keys + sold track (published key.0).lines

    -- The latest date of those that sold the track.
    abbrev pub last_of : List InboxKey → Option ℕ
    last_of [] = none
    last_of (key ∷ keys) =
        let event = published key.0 in
        latest_if event.invoice_date (mentions track event.lines) (last_of keys)

    abbrev Counts : List (ℕ × TrackSales) → ℕ × Option ℕ → Type 0
    Counts table x = sales_of track table ≡ x

    sale-Counts :
        (event : InvoiceFinalized ℕ Decimal) (table after : List (ℕ × TrackSales))
        (x : ℕ × Option ℕ)
        → Counts table x
        → handle_sale event table ≡ ok after
        → Counts after (sell_event track event x)
    sale-Counts event table after x before h =
        handle_sale-sells track event table after h ∙ ap (sell_event track event) before

    tally-units_of :
        (keys : List InboxKey)
        → tally catalog_handler handle_sale published (sell_event track) (0, none) keys
          ≡ (units_of keys % 2 ^ 32, last_of keys)
    unfolding tally
    tally-units_of [] = refl
    tally-units_of (key ∷ keys) =
        ap (sell_event track (published key.0)) (tally-units_of keys)
        ∙ units (mod_add (units_of keys) (sold track (published key.0).lines))

    -- What catalog's database says of the track after deliveries: each event is in the inbox once,
    -- one whose delivery reported no error is among them, and the track's row has their units and
    -- their latest date.
    pub record CountsSales (deliveries : List (ℕ × Option String))
        (db : Database (List (ℕ × TrackSales))) : Type 0 where
      pub distinct : IsDistinct db.inbox
      pub handled :
          All
            (λ id. Handled (key_of catalog_handler handle_sale published id) db)
            (acknowledged catalog_handler handle_sale published deliveries no_sales)
      pub counted : sales_of track db.tables ≡ (units_of db.inbox % 2 ^ 32, last_of db.inbox)

    -- Whatever invoices are delivered to catalog's handler, in whatever order, however often and
    -- with whatever faults, `TrackSales` has for a track the units, as an `i32`, and the latest date
    -- of the events in the inbox, which has each event once and every one whose delivery reported
    -- no error.
    pub receive_all-CountsSales :
        (deliveries : List (ℕ × Option String))
        → CountsSales deliveries
            (receive_all catalog_handler handle_sale published deliveries no_sales)
    unfolding tally get
    receive_all-CountsSales deliveries =
        let books =
          receive_all-IsBooked catalog_handler handle_sale published (sell_event track) (0, none)
            Counts sale-Counts deliveries no_sales (record { distinct = tt; counted = refl }) in
        record {
          distinct = books.distinct;
          handled =
              receive_all-acknowledged catalog_handler handle_sale published deliveries no_sales;
          counted = books.counted ∙ tally-units_of _;
        }
