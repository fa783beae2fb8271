-- ===== src/Orders/Once.antt =====
-- That an invoice is finalized once (crates/module-orders/src/services.rs), however often it is
-- asked for.
use rust_api_modular_monolit.Base.{
  ℕ, ◌+◌, ◌≤◌, ◌≡◌, ◌≢◌, inl, inr, refl, sym, ap, subst, ◌∙◌, String, Bool, true, false, ◌&&◌, List,
  [], ◌∷◌, some, arith, eq_string, Bool-cases, map_option, keep, length, length-append,
}
use rust_api_modular_monolit.Base.Result.{Result, ok, err}
use rust_api_modular_monolit.Orders.{
  Invoice, FinalizeOutcome, finalized, not_found, already_finalized, finalized_status, State, Call,
  Numbers, find_invoice, same_id, set_finalized, finalize_invoice, finalize_all,
}
use rust_api_modular_monolit.Orders.Finalizing.{finalize_invoice-Answers}

abbrev pub is_finalized : Result FinalizeOutcome String → Bool
is_finalized (ok finalized) = true
is_finalized (ok not_found) = false
is_finalized (ok already_finalized) = false
is_finalized (err error) = false

is_finalized-ok : (r : Result FinalizeOutcome String) → is_finalized r ≡ true → r ≡ ok finalized
is_finalized-ok (ok finalized) h = refl
is_finalized-ok (ok not_found) h = cc
is_finalized-ok (ok already_finalized) h = cc
is_finalized-ok (err error) h = cc

module _ {I32 Decimal : Type 0} (n : Numbers I32 Decimal) where
  -- How many of the answers say that the invoice has been finalized, and how many that any has.
  abbrev pub times_finalized : I32 → List (I32 × Result FinalizeOutcome String) → ℕ
  times_finalized id outcomes = length (keep (λ o. same_id n o.0 id && is_finalized o.1) outcomes)

  abbrev pub all_finalized : List (I32 × Result FinalizeOutcome String) → ℕ
  all_finalized outcomes = length (keep (λ o. is_finalized o.1) outcomes)

  abbrev IsFinal : I32 → List (Invoice I32 Decimal) → Type 0
  IsFinal id invoices =
      map_option (λ i. i.status) (find_invoice n id invoices) ≡ some finalized_status

  set_finalized-IsFinal :
      (id j : I32) (invoices : List (Invoice I32 Decimal))
      → IsFinal id invoices
      → IsFinal id (set_finalized n j invoices)
  unfolding set_finalized
  set_finalized-IsFinal id j [] h = h
  set_finalized-IsFinal id j (invoice ∷ invoices) h = elim (Bool-cases (same_id n invoice.id j)) [
    | inl e ↦ elim (Bool-cases (same_id n invoice.id id)) [
      | inl f ↦ rw (e, f) refl
      | inr f ↦ rw (e, f) (set_finalized-IsFinal id j invoices (rw f at h))
    ]
    | inr e ↦ elim (Bool-cases (same_id n invoice.id id)) [
      | inl f ↦ rw (e, f) (rw f at h)
      | inr f ↦ rw (e, f) (set_finalized-IsFinal id j invoices (rw f at h))
    ]
  ]

  set_finalized-now :
      (id : I32) (invoice : Invoice I32 Decimal) (invoices : List (Invoice I32 Decimal))
      → find_invoice n id invoices ≡ some invoice
      → IsFinal id (set_finalized n id invoices)
  unfolding set_finalized
  set_finalized-now id invoice [] h = cc
  set_finalized-now id invoice (i ∷ invoices) h = elim (Bool-cases (same_id n i.id id)) [
    | inl e ↦ rw e (rw e refl)
    | inr e ↦ rw e (rw e (set_finalized-now id invoice invoices (rw e at h)))
  ]

  -- The other id is the same one.
  same_id-equal : (a b : I32) → same_id n a b ≡ true → a ≡ b
  same_id-equal a b h = (n.equal.equals_iff a b).0 h

module _ {I32 Decimal V : Type 0} (n : Numbers I32 Decimal) where
  call_keeps :
      (call : Call) (j id : I32) (s : State I32 Decimal V)
      → IsFinal n id s.database.invoices
      → IsFinal n id (finalize_invoice n call j s).1.database.invoices
  call_keeps call j id s h = elim (finalize_invoice-Answers n call j s) [
    | inl done ↦
        subst (IsFinal n id) (sym done.1.5) (set_finalized-IsFinal n id j s.database.invoices h)
    | inr kept ↦
        subst (λ (t : State I32 Decimal V). IsFinal n id t.database.invoices) (sym kept.1) h
  ]

  -- A final invoice is not finalized.
  again :
      (call : Call) (j id : I32) (s : State I32 Decimal V)
      → IsFinal n id s.database.invoices
      → (same_id n j id && is_finalized (finalize_invoice n call j s).0) ≢ true
  again call j id s h e = elim (finalize_invoice-Answers n call j s) [
    | inl done ↦
        let same : j ≡ id = same_id-equal n j id (ground arith) in
        let there : find_invoice n id s.database.invoices ≡ some done.1.0 =
          subst (λ k. find_invoice n k s.database.invoices ≡ some done.1.0) same done.1.2 in
        let final : some done.1.0.status ≡ some finalized_status = rw there at h in done.1.3 cc
    | inr kept ↦ kept.0 (is_finalized-ok (finalize_invoice n call j s).0 (ground arith))
  ]

  -- An invoice that has been finalized is final.
  now-IsFinal :
      (call : Call) (j id : I32) (s : State I32 Decimal V)
      → (same_id n j id && is_finalized (finalize_invoice n call j s).0) ≡ true
      → IsFinal n id (finalize_invoice n call j s).1.database.invoices
  now-IsFinal call j id s e = elim (finalize_invoice-Answers n call j s) [
    | inl done ↦
        let same : j ≡ id = same_id-equal n j id (ground arith) in
        subst (λ k. IsFinal n k (finalize_invoice n call j s).1.database.invoices) same
          (subst (IsFinal n j) (sym done.1.5)
            (set_finalized-now n j done.1.0 s.database.invoices done.1.2))
    | inr kept ↦ absurd (kept.0 (is_finalized-ok (finalize_invoice n call j s).0 (ground arith)))
  ]

  -- An invoice that is final is never finalized.
  finalize_all-times :
      (id : I32) (calls : List (Call × I32)) (s : State I32 Decimal V)
      → IsFinal n id s.database.invoices
      → times_finalized n id (finalize_all n calls s).0 ≡ 0
  unfolding finalize_all
  finalize_all-times id [] s h = refl
  finalize_all-times id ((call, j) ∷ calls) s h =
      let t = (finalize_invoice n call j s).1 in
      let rest = finalize_all-times id calls t (call_keeps call j id s h) in
      elim (Bool-cases (same_id n j id && is_finalized (finalize_invoice n call j s).0)) [
        | inl e ↦ absurd (again call j id s h e)
        | inr e ↦ rw e rest
      ]

  -- An invoice is finalized at most once: among the answers to any series of calls, for this
  -- invoice and for others, at most one says that it has been.
  pub finalize_all-once :
      (id : I32) (calls : List (Call × I32)) (s : State I32 Decimal V)
      → times_finalized n id (finalize_all n calls s).0 ≤ 1
  unfolding finalize_all
  finalize_all-once id [] s = omega arith
  finalize_all-once id ((call, j) ∷ calls) s =
      let t = (finalize_invoice n call j s).1 in
      elim (Bool-cases (same_id n j id && is_finalized (finalize_invoice n call j s).0)) [
        | inl e ↦
            let none_left = finalize_all-times id calls t (now-IsFinal call j id s e) in
            rw e (omega (arith, none_left))
        | inr e ↦ rw e (finalize_all-once id calls t)
      ]

  -- The outbox gains one row for each invoice that is finalized, and no other.
  length-finalize_all :
      (calls : List (Call × I32)) (s : State I32 Decimal V)
      → length (finalize_all n calls s).1.database.outbox
        ≡ length s.database.outbox + all_finalized n (finalize_all n calls s).0
  unfolding finalize_all
  length-finalize_all [] s = omega arith
  length-finalize_all ((call, j) ∷ calls) s =
      let t = (finalize_invoice n call j s).1 in
      let rest = length-finalize_all calls t in
      elim (finalize_invoice-Answers n call j s) [
        | inl done ↦
            let grown = ap length done.1.7 ∙ length-append s.database.outbox _ in
            rw (done.0) (omega (arith, rest, grown))
        | inr kept ↦
            let same = ap (λ (u : State I32 Decimal V). length u.database.outbox) kept.1 in
            elim (Bool-cases (is_finalized (finalize_invoice n call j s).0)) [
              | inl e ↦ absurd (kept.0 (is_finalized-ok (finalize_invoice n call j s).0 e))
              | inr e ↦ rw e (omega (arith, rest, same))
            ]
      ]
