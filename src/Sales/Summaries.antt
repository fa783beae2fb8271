-- ===== src/Sales/Summaries.antt =====
-- crates/module-admin/src/events.rs: what one event makes of a customer's purchase summary. Amounts
-- of at most two decimals are kept by a `numeric(12,2)` as they are, which is a hypothesis.
use rust_api_modular_monolit.Base.{
  ℕ, ◌+◌, ◌^◌, ◌<◌, ◌≡◌, refl, ap, sym, ◌∙◌, inl, inr, String, Bool, false, List, Option, none,
  some, arith, nat_eq, nat_eq_iff, eq_nat, if◌then◌else◌, Option-cases, Bool-cases, subst,
}
use rust_api_modular_monolit.Base.Result.{Result, ok, err, ok-inj}
use rust_api_modular_monolit.Base.Map.{get, insert, get-insert}
use rust_api_modular_monolit.Orders.{InvoiceFinalized}
use rust_api_modular_monolit.Sales.{
  PurchaseSummary, latest, checked_add, update_summary, insert_summary, upsert_summary, summarize,
  handle_purchase, or_nothing,
}

PurchaseSummary-ext :
    {Decimal : Type 0} {r s : PurchaseSummary Decimal}
    → r.total_spent ≡ s.total_spent
    → r.invoice_count ≡ s.invoice_count
    → r.last_purchase_at ≡ s.last_purchase_at
    → r ≡ s
PurchaseSummary-ext {r = r} {s = s} total count last =
    ap (λ a. record r { total_spent = a }) total
    ∙ ap (λ n. record r { total_spent = s.total_spent; invoice_count = n }) count
    ∙ ap (λ l. record s { last_purchase_at = l }) last

checked_add-suc : (n m : ℕ) → n < 2 ^ 31 → checked_add n 1 ≡ some m → (m ≡ n + 1) × (m < 2 ^ 31)
unfolding checked_add
checked_add-suc n m small h = ground arith

module _ {Decimal : Type 0} (zero : Decimal) (plus : Decimal → Decimal → Decimal)
    (customer : ℕ) where
  abbrev pub is_theirs : Option ℕ → Bool
  is_theirs none = false
  is_theirs (some id) = nat_eq id customer

  -- A purchase more.
  abbrev pub purchase : Decimal → ℕ → PurchaseSummary Decimal → PurchaseSummary Decimal
  purchase total date row = record {
    total_spent = plus row.total_spent total;
    invoice_count = row.invoice_count + 1;
    last_purchase_at = latest row.last_purchase_at date;
  }

  abbrev pub buy : InvoiceFinalized ℕ Decimal → PurchaseSummary Decimal → PurchaseSummary Decimal
  buy event row =
      if is_theirs event.customer_id then purchase event.total event.invoice_date row else row

  -- The customer's row, or none yet, is the summary; its count is an `i32` that is not negative.
  abbrev pub Counts : List (ℕ × PurchaseSummary Decimal) → PurchaseSummary Decimal → Type 0
  Counts table row = (or_nothing zero (get customer table) ≡ row) × (row.invoice_count < 2 ^ 31)

  module _ (store : Decimal → Option Decimal) (stored : (a b : Decimal) → store a ≡ some b → b ≡ a)
      (zero_plus : (a : Decimal) → plus zero a ≡ a) where
    -- The row that an upsert puts for a customer who had the summary `old`.
    record IsPut (id date : ℕ) (amount : Decimal) (old : PurchaseSummary Decimal)
        (table after : List (ℕ × PurchaseSummary Decimal)) : Type 0 where
      row : PurchaseSummary Decimal
      put : after ≡ insert id row table
      total : row.total_spent ≡ plus old.total_spent amount
      count : checked_add old.invoice_count 1 ≡ some row.invoice_count
      last : row.last_purchase_at ≡ latest old.last_purchase_at date

    update_summary-IsPut :
        (id date : ℕ) (total : Decimal) (old : PurchaseSummary Decimal) (sum : Option Decimal)
        (count : Option ℕ) (table after : List (ℕ × PurchaseSummary Decimal))
        → store (plus old.total_spent total) ≡ sum
        → checked_add old.invoice_count 1 ≡ count
        → update_summary store plus id date old sum count table ≡ ok after
        → IsPut id date total old table after
    update_summary-IsPut id date total old none count table after e f h = cc
    update_summary-IsPut id date total old (some t) none table after e f h = cc
    update_summary-IsPut id date total old (some t) (some n) table after e f h = record {
      row = record {
        total_spent = t;
        invoice_count = n;
        last_purchase_at = latest old.last_purchase_at date;
      };
      put = sym (ok-inj h);
      total = stored _ t e;
      count = f;
      last = refl;
    }

    insert_summary-IsPut :
        (id date : ℕ) (total : Decimal) (there : Option (PurchaseSummary Decimal))
        (table after : List (ℕ × PurchaseSummary Decimal))
        → insert_summary store plus id date total there table ≡ ok after
        → IsPut id date total (or_nothing zero there) table after
    unfolding checked_add
    insert_summary-IsPut id date total none table after h = record {
      row = record { total_spent = total; invoice_count = 1; last_purchase_at = some date };
      put = sym (ok-inj h);
      total = sym (zero_plus total);
      count = refl;
      last = refl;
    }
    insert_summary-IsPut id date total (some old) table after h =
        update_summary-IsPut id date total old _ _ table after refl refl h

    upsert_summary-IsPut :
        (id date : ℕ) (total : Decimal) (table after : List (ℕ × PurchaseSummary Decimal))
        → upsert_summary store plus id total date table ≡ ok after
        → IsPut id date total (or_nothing zero (get id table)) table after
    unfolding upsert_summary
    upsert_summary-IsPut id date total table after h = elim (Option-cases (store total)) [
      | inl e ↦
          let bad : ◌≡◌ {A = Result (List (ℕ × PurchaseSummary Decimal)) String}
              (err "numeric field overflow") (ok after) =
            rw (upsert_summary, e) at h in
          cc
      | inr (excluded, e) ↦
          subst (λ a. IsPut id date a (or_nothing zero (get id table)) table after)
            (stored total excluded e)
            (insert_summary-IsPut id date excluded (get id table) table after
              (rw (upsert_summary, e) at h))
    ]

    bought :
        (id date : ℕ) (total : Decimal) (old row : PurchaseSummary Decimal)
        (table after : List (ℕ × PurchaseSummary Decimal))
        → old ≡ row
        → row.invoice_count < 2 ^ 31
        → (p : IsPut id date total old table after)
        → (p.row ≡ purchase total date row) × (row.invoice_count + 1 < 2 ^ 31)
    bought id date total old row table after e small p =
        let same : checked_add row.invoice_count 1 ≡ some p.row.invoice_count = rw e at p.count in
        let (count, fits) = checked_add-suc row.invoice_count p.row.invoice_count small same in
        (PurchaseSummary-ext (rw e at p.total) count (rw e at p.last), rw (sym count) fits)

    upsert_summary-Counts :
        (id date : ℕ) (total : Decimal) (table after : List (ℕ × PurchaseSummary Decimal))
        (row : PurchaseSummary Decimal)
        → Counts table row
        → upsert_summary store plus id total date table ≡ ok after
        → Counts after (if nat_eq id customer then purchase total date row else row)
    upsert_summary-Counts id date total table after row c h =
        let p = upsert_summary-IsPut id date total table after h in
        let there : get customer after
            ≡ (if nat_eq id customer then some p.row else get customer table) =
          ap (get customer) p.put ∙ get-insert id customer p.row table in
        elim (Bool-cases (nat_eq id customer)) [
          | inl same ↦
              let old : or_nothing zero (get id table) ≡ row =
                ap (λ i. or_nothing zero (get i table)) ((nat_eq_iff id customer).0 same) ∙ c.0 in
              let (after_row, fits) = bought id date total _ row table after old c.1 p in
              rw same (ap (or_nothing zero) (rw same at there) ∙ after_row, fits)
          | inr other ↦ rw other (ap (or_nothing zero) (rw other at there) ∙ c.0, c.1)
        ]

    summarize-Counts :
        (id : Option ℕ) (total : Decimal) (date : ℕ)
        (table after : List (ℕ × PurchaseSummary Decimal)) (row : PurchaseSummary Decimal)
        → Counts table row
        → summarize store plus id total date table ≡ ok after
        → Counts after (if is_theirs id then purchase total date row else row)
    summarize-Counts none total date table after row c h = subst (λ m. Counts m row) (ok-inj h) c
    summarize-Counts (some id) total date table after row c h =
        upsert_summary-Counts id date total table after row c h

    pub handle_purchase-Counts :
        (event : InvoiceFinalized ℕ Decimal) (table after : List (ℕ × PurchaseSummary Decimal))
        (row : PurchaseSummary Decimal)
        → Counts table row
        → handle_purchase store plus event table ≡ ok after
        → Counts after (buy event row)
    unfolding handle_purchase
    handle_purchase-Counts event = summarize-Counts event.customer_id event.total event.invoice_date
