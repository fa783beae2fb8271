-- ===== src/Sales/Lines.antt =====
-- crates/module-catalog/src/events.rs: grouping the lines of an event by their track changes nothing
-- of what is sold of a track.
use rust_api_modular_monolit.Base.{
  ℕ, ◌+◌, ◌%◌, ◌^◌, ◌≡◌, refl, ap, sym, ◌∙◌, inl, inr, String, Bool, true, false, List, [], ◌∷◌,
  Option, none, arith, if◌then◌else◌, any, nat_eq, nat_eq_iff, eq_nat, Option-cases, Bool-cases,
}
use rust_api_modular_monolit.Base.Result.{Result, ok, err, Result-cases, ok-inj}
use rust_api_modular_monolit.Base.Map.{get}
use rust_api_modular_monolit.Orders.{InvoiceFinalized, InvoiceFinalizedLine}
use rust_api_modular_monolit.Sales.Tracks.{
  sales_of, units, mod_add, latest_twice, sell_if, sell_if_comm, sell_if_twice,
  upsert_sales-sell_if,
}
use rust_api_modular_monolit.Sales.{
  handle_sale, TrackSales, latest, add_quantity, per_track, upsert_sales, record_sales,
}

abbrev pub latest_if : ℕ → Bool → Option ℕ → Option ℕ
latest_if date here last = if here then latest last date else last

latest_if_twice :
    (date : ℕ) (b : Bool) (last : Option ℕ) → latest_if date b (latest last date) ≡ latest last date
latest_if_twice date true last = latest_twice last date
latest_if_twice date false last = refl

module _ {Decimal : Type 0} (track : ℕ) where
  -- The units of a track on the lines, and whether it is on one.
  abbrev pub sold : List (InvoiceFinalizedLine ℕ Decimal) → ℕ
  sold [] = 0
  sold (line ∷ lines) =
      if nat_eq line.track_id track then line.quantity + sold lines else sold lines

  abbrev pub mentions : List (InvoiceFinalizedLine ℕ Decimal) → Bool
  mentions = any (λ line. nat_eq line.track_id track)

module _ (track date : ℕ) where
  -- What entries of `per_track` sell of a track.
  unfoldable sell_sums : List (ℕ × ℕ) → ℕ × Option ℕ → ℕ × Option ℕ
  sell_sums [] x = x
  sell_sums ((t, q) ∷ sums) x = sell_sums sums (sell_if (nat_eq t track) q date x)

  sell_sums-sell_if :
      (sums : List (ℕ × ℕ)) (b : Bool) (q : ℕ) (x : ℕ × Option ℕ)
      → sell_sums sums (sell_if b q date x) ≡ sell_if b q date (sell_sums sums x)
  unfolding sell_sums
  sell_sums-sell_if [] b q x = refl
  sell_sums-sell_if ((t, r) ∷ sums) b q x =
      ap (sell_sums sums) (sell_if_comm b (nat_eq t track) q r date x)
      ∙ sell_sums-sell_if sums b q (sell_if (nat_eq t track) r date x)

  sell_sums-add_quantity :
      (sums : List (ℕ × ℕ)) (t q : ℕ) (x : ℕ × Option ℕ)
      → sell_sums (add_quantity t q sums) x ≡ sell_if (nat_eq t track) q date (sell_sums sums x)
  unfolding sell_sums add_quantity
  sell_sums-add_quantity [] t q x = refl
  sell_sums-add_quantity ((u, r) ∷ sums) t q x = elim (Bool-cases (nat_eq u t)) [
    | inl same ↦
        let y = sell_if (nat_eq u track) r date x in
        let both : nat_eq u track ≡ nat_eq t track =
          ap (λ v. nat_eq v track) ((nat_eq_iff u t).0 same) in
        rw same (
          ap (sell_sums sums) (sym (sell_if_twice (nat_eq u track) r q date x))
          ∙ sell_sums-sell_if sums (nat_eq u track) q y
          ∙ ap (λ b. sell_if b q date (sell_sums sums y)) both)
    | inr other ↦ rw other (sell_sums-add_quantity sums t q (sell_if (nat_eq u track) r date x))
  ]

  record_sales-sells :
      (sums : List (ℕ × ℕ)) (table after : List (ℕ × TrackSales))
      → record_sales date sums table ≡ ok after
      → sales_of track after ≡ sell_sums sums (sales_of track table)
  unfolding record_sales sell_sums
  record_sales-sells [] table after h = ap (sales_of track) (sym (ok-inj h))
  record_sales-sells ((t, q) ∷ sums) table after h =
      elim (Result-cases (upsert_sales date t q table)) [
        | inl (between, e) ↦
            record_sales-sells sums between after (rw (e, record_sales) at h)
            ∙ ap (sell_sums sums) (upsert_sales-sell_if date t q track table between e)
        | inr (reason, e) ↦
            let bad : ◌≡◌ {A = Result (List (ℕ × TrackSales)) String} (err reason) (ok after) =
              rw (e, record_sales) at h in
            cc
      ]

  module _ {Decimal : Type 0} where
    abbrev sell_lines : List (InvoiceFinalizedLine ℕ Decimal) → ℕ × Option ℕ → ℕ × Option ℕ
    sell_lines [] x = x
    sell_lines (line ∷ lines) x =
        sell_lines lines (sell_if (nat_eq line.track_id track) line.quantity date x)

    sell_sums-per_track :
        (lines : List (InvoiceFinalizedLine ℕ Decimal)) (sums : List (ℕ × ℕ)) (x : ℕ × Option ℕ)
        → sell_sums (per_track lines sums) x ≡ sell_lines lines (sell_sums sums x)
    unfolding per_track
    sell_sums-per_track [] sums x = refl
    sell_sums-per_track (line ∷ lines) sums x =
        sell_sums-per_track lines (add_quantity line.track_id line.quantity sums) x
        ∙ ap (sell_lines lines) (sell_sums-add_quantity sums line.track_id line.quantity x)

    sell_lines-sold :
        (lines : List (InvoiceFinalizedLine ℕ Decimal)) (n : ℕ) (last : Option ℕ)
        → sell_lines lines (n % 2 ^ 32, last)
          ≡ ((n + sold track lines) % 2 ^ 32, latest_if date (mentions track lines) last)
    sell_lines-sold [] n last = units (omega arith)
    sell_lines-sold (line ∷ lines) n last = elim (Bool-cases (nat_eq line.track_id track)) [
      | inl here ↦
          let q = line.quantity in
          let first : (n % 2 ^ 32 + q) % 2 ^ 32 ≡ (n + q) % 2 ^ 32 = omega arith in
          let whole : (n + q + sold track lines) % 2 ^ 32 ≡ (n + (q + sold track lines)) % 2 ^ 32 =
            omega arith in
          rw here (
            ap (sell_lines lines) (units first)
            ∙ sell_lines-sold lines (n + q) (latest last date)
            ∙ ap (λ l. ((n + q + sold track lines) % 2 ^ 32, l))
                (latest_if_twice date (mentions track lines) last)
            ∙ units whole)
      | inr other ↦ rw other (sell_lines-sold lines n last)
    ]

sales_of-wraps :
    (track : ℕ) (table : List (ℕ × TrackSales))
    → (n : ℕ) × (last : Option ℕ) × (sales_of track table ≡ (n % 2 ^ 32, last))
sales_of-wraps track table = elim (Option-cases (get track table)) [
  | inl e ↦ (0, none, rw e refl)
  | inr (row, e) ↦ (row.times_sold, row.last_sold_at, rw e refl)
]

module _ {Decimal : Type 0} (track : ℕ) where
  -- An event's sale of the track.
  abbrev pub sell_event : InvoiceFinalized ℕ Decimal → ℕ × Option ℕ → ℕ × Option ℕ
  sell_event event (n, last) = (
    (n + sold track event.lines) % 2 ^ 32,
    latest_if event.invoice_date (mentions track event.lines) last,
  )

  pub handle_sale-sells :
      (event : InvoiceFinalized ℕ Decimal) (table after : List (ℕ × TrackSales))
      → handle_sale event table ≡ ok after
      → sales_of track after ≡ sell_event event (sales_of track table)
  unfolding handle_sale sell_sums
  handle_sale-sells event table after h =
      let (n, last, e) = sales_of-wraps track table in
      let date = event.invoice_date in
      let sells = record_sales-sells track date (per_track event.lines []) table after h in
      let lines = sell_sums-per_track track date event.lines [] (sales_of track table) in
      let closed =
        ap (sell_lines track date event.lines) e ∙ sell_lines-sold track date event.lines n last in
      sells
      ∙ lines
      ∙ closed
      ∙ (units (sym (mod_add n (sold track event.lines))) ∙ ap (sell_event event) (sym e))
