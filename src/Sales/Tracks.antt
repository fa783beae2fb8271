-- ===== src/Sales/Tracks.antt =====
-- crates/module-catalog/src/events.rs: what `TrackSales` says of a track is what the events in
-- catalog's inbox come to.
use rust_api_modular_monolit.Base.{
  ℕ, ◌+◌, ◌%◌, ◌^◌, ◌≡◌, refl, ap, ◌∙◌, inl, inr, String, Bool, true, false, List, Option, none,
  some, arith, if◌then◌else◌, nat_eq, nat_eq_iff, eq_nat, Option-cases, Bool-cases, subst,
}
use rust_api_modular_monolit.Base.Result.{Result, ok, err, ok-inj}
use rust_api_modular_monolit.Base.Map.{get, insert, get-insert}
use rust_api_modular_monolit.Sales.{
  add_i32, checked_add, TrackSales, latest, upsert_sales, overflows,
}

-- `TimesSold` and `LastSoldAt` of a track, nothing where it has no row.
abbrev sales_row : Option TrackSales → ℕ × Option ℕ
sales_row none = (0, none)
sales_row (some row) = (row.times_sold % 2 ^ 32, row.last_sold_at)

abbrev pub sales_of : ℕ → List (ℕ × TrackSales) → ℕ × Option ℕ
sales_of track table = sales_row (get track table)

-- A number of units more of a track, sold at a date.
abbrev pub sell : ℕ → ℕ → ℕ × Option ℕ → ℕ × Option ℕ
sell quantity date (n, last) = ((n + quantity) % 2 ^ 32, latest last date)

pub units : {a b : ℕ} {last : Option ℕ} → a ≡ b → ◌≡◌ {A = ℕ × Option ℕ} (a, last) (b, last)
units {last = last} h = ap (λ n. (n, last)) h

-- What a row that is put for a track makes of each.
put-sales :
    (track t : ℕ) (row : TrackSales) (x : ℕ × Option ℕ) (table : List (ℕ × TrackSales))
    → sales_row (some row) ≡ x
    → sales_of t (insert track row table) ≡ (if nat_eq track t then x else sales_of t table)
put-sales track t row x table h = elim (Bool-cases (nat_eq track t)) [
  | inl same ↦ rw (get-insert track t row table, same) h
  | inr other ↦ rw (get-insert track t row table, other) refl
]

upsert_sales-sells :
    (date track quantity t : ℕ) (table after : List (ℕ × TrackSales))
    → upsert_sales date track quantity table ≡ ok after
    → sales_of t after
      ≡ (if nat_eq track t then sell quantity date (sales_of track table) else sales_of t table)
unfolding upsert_sales checked_add
upsert_sales-sells date track quantity t table after h =
    let sold = sell quantity date (sales_of track table) in
    elim (Option-cases (get track table)) [
      | inl e ↦
          let row : TrackSales = record { times_sold = quantity; last_sold_at = some date } in
          let same : insert track row table ≡ after = ok-inj (rw (e, upsert_sales) at h) in
          subst (λ m. sales_of t m ≡ (if nat_eq track t then sold else sales_of t table)) same
            (put-sales track t row sold table (rw e (units (omega arith))))
      | inr (row, e) ↦ elim (Bool-cases (overflows row.times_sold quantity)) [
        | inl over ↦
            let bad : ◌≡◌ {A = Result (List (ℕ × TrackSales)) String} (err "integer out of range")
                (ok after) =
              rw (e, upsert_sales, over, checked_add) at h in
            cc
        | inr fits ↦
            let row' : TrackSales = record {
              times_sold = add_i32 row.times_sold quantity;
              last_sold_at = latest row.last_sold_at date;
            } in
            let same : insert track row' table ≡ after =
              ok-inj (rw (e, upsert_sales, fits, checked_add) at h) in
            subst (λ m. sales_of t m ≡ (if nat_eq track t then sold else sales_of t table)) same
              (put-sales track t row' sold table (rw e (units (omega arith))))
      ]
    ]

pub latest_twice : (last : Option ℕ) (date : ℕ) → latest (latest last date) date ≡ latest last date
latest_twice none date = ground arith
latest_twice (some last) date = ground arith

pub mod_add : (a b : ℕ) → (a % 2 ^ 32 + b) % 2 ^ 32 ≡ (a + b) % 2 ^ 32
mod_add a b = omega arith

sell_twice :
    (q r date : ℕ) (x : ℕ × Option ℕ) → sell r date (sell q date x) ≡ sell (add_i32 q r) date x
sell_twice q r date (n, last) =
    let same : ((n + q) % 2 ^ 32 + r) % 2 ^ 32 ≡ (n + (q + r) % 2 ^ 32) % 2 ^ 32 = omega arith in
    rw (same, latest_twice last date) refl

sell_comm :
    (q r date : ℕ) (x : ℕ × Option ℕ) → sell r date (sell q date x) ≡ sell q date (sell r date x)
sell_comm q r date (n, last) =
    let same : ((n + q) % 2 ^ 32 + r) % 2 ^ 32 ≡ ((n + r) % 2 ^ 32 + q) % 2 ^ 32 = omega arith in
    ap (λ a. (a, latest (latest last date) date)) same

abbrev pub sell_if : Bool → ℕ → ℕ → ℕ × Option ℕ → ℕ × Option ℕ
sell_if here quantity date x = if here then sell quantity date x else x

pub sell_if_comm :
    (b c : Bool) (q r date : ℕ) (x : ℕ × Option ℕ)
    → sell_if c r date (sell_if b q date x) ≡ sell_if b q date (sell_if c r date x)
sell_if_comm true true q r date x = sell_comm q r date x
sell_if_comm true false q r date x = refl
sell_if_comm false c q r date x = refl

pub sell_if_twice :
    (b : Bool) (q r date : ℕ) (x : ℕ × Option ℕ)
    → sell_if b r date (sell_if b q date x) ≡ sell_if b (add_i32 q r) date x
sell_if_twice true q r date x = sell_twice q r date x
sell_if_twice false q r date x = refl

pub upsert_sales-sell_if :
    (date t quantity track : ℕ) (table after : List (ℕ × TrackSales))
    → upsert_sales date t quantity table ≡ ok after
    → sales_of track after ≡ sell_if (nat_eq t track) quantity date (sales_of track table)
upsert_sales-sell_if date t quantity track table after h =
    let sells = upsert_sales-sells date t quantity track table after h in
    elim (Bool-cases (nat_eq t track)) [
      | inl same ↦
          let there : sales_of t table ≡ sales_of track table =
            ap (λ v. sales_of v table) ((nat_eq_iff t track).0 same) in
          rw same (rw same at sells ∙ ap (sell quantity date) there)
      | inr other ↦ rw other (rw other at sells)
    ]
