-- ===== src/Reporting/Findings.antt =====
-- crates/module-reporting/src/sql.rs: what the statements of a check make of the open findings.
use rust_api_modular_monolit.Base.{
  ℕ, ◌≡◌, refl, ap, ◌∙◌, inl, inr, String, Bool, true, false, not, ◌&&◌, ◌||◌, List, [], ◌∷◌,
  Option, arith, nat_eq, nat_eq_iff, eq_string, ◌==◌, Bool-cases, beq_comm,
}
use rust_api_modular_monolit.Reporting.{
  IntegrityFinding, OrphanCheck, Tables, is_missing_reference, is_finding, is_open, is_orphan,
  new_finding, detect, is_gone, resolve, source_rows,
}

pub and_left : (a b : Bool) → (a && b) ≡ true → a ≡ true
and_left a b h = ground arith

pub and_right : (a b : Bool) → (a && b) ≡ true → b ≡ true
and_right a b h = ground arith

-- An open finding is the same question for equal names and rows.
is_open-same :
    (m n : String) (i j : ℕ) (findings : List IntegrityFinding)
    → ((m == n) && nat_eq i j) ≡ true
    → is_open m i findings ≡ is_open n j findings
is_open-same m n i j findings h =
    let names : m ≡ n = (eq_string.equals_iff m n).0 (and_left (m == n) (nat_eq i j) h) in
    let rows : i ≡ j = (nat_eq_iff i j).0 (and_right (m == n) (nat_eq i j) h) in
    ap (λ a. is_open a i findings) names ∙ ap (λ a. is_open n a findings) rows

-- The Boolean algebra of one row, which is new or has been seen.
row_new :
    (a b m p r : Bool)
    → m ≡ true
    → (((a && b && true) || p) || (a && r)) ≡ (p || (a && ((b && m) || r)))
row_new a b m p r h = ground arith

row_seen :
    (a b m o p r : Bool)
    → (m && not o) ≡ false
    → ((a && b) ≡ true → o ≡ p)
    → (p || (a && r)) ≡ (p || (a && ((b && m) || r)))
row_seen true true m o p r h same = ground (arith, same refl)
row_seen true false m o p r h same = refl
row_seen false b m o p r h same = refl

module _ (uuid : String → ℕ → ℕ) (print : ℕ → String) where
  pub detect-is_open :
      (tables : Tables) (check : OrphanCheck) (now : ℕ) (rows : List (ℕ × Option ℕ))
      (findings : List IntegrityFinding) (n : String) (i : ℕ)
      → is_open n i (detect uuid print tables check now rows findings).1
        ≡ (is_open n i findings || ((check.name == n) && is_orphan tables check i rows))
  unfolding detect
  detect-is_open tables check now [] findings n i = ground arith
  detect-is_open tables check now ((id, reference) ∷ rows) findings n i =
      let found = new_finding uuid print check now id reference ∷ findings in
      let old = detect-is_open tables check now rows findings n i in
      let new = detect-is_open tables check now rows found n i in
      let same = is_open-same check.name n id i findings in
      elim (Bool-cases
        (is_missing_reference tables check reference && not (is_open check.name id findings))) [
          | inl fresh ↦ rw fresh (
              new
              ∙ row_new (check.name == n) (nat_eq id i)
                  (is_missing_reference tables check reference) (is_open n i findings)
                  (is_orphan tables check i rows)
                  (and_left (is_missing_reference tables check reference) _ fresh))
          | inr seen ↦ rw seen (
              old
              ∙ row_seen (check.name == n) (nat_eq id i)
                  (is_missing_reference tables check reference) (is_open check.name id findings)
                  (is_open n i findings) (is_orphan tables check i rows) seen same)
        ]

-- The Boolean algebra of one finding, which is resolved or kept.
finding_gone : (f g p q : Bool) → g ≡ true → (f ≡ true → q ≡ not g) → (p && q) ≡ ((f || p) && q)
finding_gone true g p q h decides = ground (arith, decides refl)
finding_gone false g p q h decides = refl

finding_kept :
    (f g p q : Bool) → g ≡ false → (f ≡ true → q ≡ not g) → (f || (p && q)) ≡ ((f || p) && q)
finding_kept true g p q h decides = ground (arith, decides refl)
finding_kept false g p q h decides = refl

de_morgan : (a b : Bool) → (not a || b) ≡ not (a && not b)
de_morgan true true = refl
de_morgan true false = refl
de_morgan false b = refl

and_false : (b : Bool) → (b && false) ≡ false
and_false true = refl
and_false false = refl

-- A finding that is open for a row is resolved unless the row is an orphan of the check.
is_gone-is_orphan :
    (tables : Tables) (check : OrphanCheck) (f : IntegrityFinding) (n : String) (i : ℕ)
    → is_finding n i f ≡ true
    → (not (check.name == n) || is_orphan tables check i (source_rows tables check))
      ≡ not (is_gone tables check f)
is_gone-is_orphan tables check f n i h =
    let orphan : ℕ → Bool = λ id. is_orphan tables check id (source_rows tables check) in
    let both = and_left ((f.check_name == n) && nat_eq f.source_id i) _ h in
    let unresolved = and_right ((f.check_name == n) && nat_eq f.source_id i) _ h in
    let name : f.check_name ≡ n =
      (eq_string.equals_iff f.check_name n).0 (and_left (f.check_name == n) _ both) in
    let row : f.source_id ≡ i =
      (nat_eq_iff f.source_id i).0 (and_right (f.check_name == n) _ both) in
    rw (unresolved, name, row, beq_comm n check.name)
      (de_morgan (check.name == n) (is_orphan tables check i (source_rows tables check)))

pub resolve-is_open :
    (tables : Tables) (check : OrphanCheck) (now : ℕ) (findings : List IntegrityFinding)
    (n : String) (i : ℕ)
    → is_open n i (resolve tables check now findings).1 ≡ (
        is_open n i findings
        && (not (check.name == n) || is_orphan tables check i (source_rows tables check)))
unfolding resolve
resolve-is_open tables check now [] n i = refl
resolve-is_open tables check now (f ∷ findings) n i =
    let rest = resolve-is_open tables check now findings n i in
    elim (Bool-cases (is_gone tables check f)) [
      | inl gone ↦ rw gone (
          ap (λ b. b || is_open n i (resolve tables check now findings).1)
            (and_false ((f.check_name == n) && nat_eq f.source_id i))
          ∙ rest
          ∙ finding_gone (is_finding n i f) (is_gone tables check f) (is_open n i findings) _ gone
              (is_gone-is_orphan tables check f n i))
      | inr kept ↦ rw kept (
          ap (λ b. is_finding n i f || b) rest
          ∙ finding_kept (is_finding n i f) (is_gone tables check f) (is_open n i findings) _ kept
              (is_gone-is_orphan tables check f n i))
    ]
