-- ===== src/Reporting/Checks.antt =====
-- crates/module-reporting/src/sql.rs: a check keeps the findings unique, and finds nothing new where
-- its findings are those of the tables.
use rust_api_modular_monolit.Base.{
  ℕ, ◌≡◌, refl, inl, inr, String, Bool, true, false, not, ◌&&◌, ◌||◌, List, [], ◌∷◌, Option, arith,
  eq_string, eq_nat, ◌==◌, is_some, Bool-cases, beq_self,
}
use rust_api_modular_monolit.Reporting.{
  IntegrityFinding, OrphanCheck, Tables, is_missing_reference, is_open, is_orphan, detect, is_gone,
  resolve, source_rows,
}
use rust_api_modular_monolit.Reporting.Findings.{and_right, resolve-is_open}

-- No row has two open findings of a check.
abbrev pub IsUnique : List IntegrityFinding → Type 0
IsUnique [] = Unit
IsUnique (f ∷ findings) =
    ((not (is_some f.resolved_at) && is_open f.check_name f.source_id findings) ≡ false)
    × IsUnique findings

unnot : {b : Bool} → not b ≡ true → b ≡ false
unnot {b = b} h = ground arith

or_here : (a b c : Bool) → a ≡ true → b ≡ true → ((a && b) || c) ≡ true
or_here a b c h k = ground arith

all_here : (a b c d : Bool) → a ≡ true → b ≡ true → c ≡ true → ((a && b && c) || d) ≡ true
all_here a b c d h k l = ground arith

or_there : (a b : Bool) → b ≡ true → (a || b) ≡ true
or_there a b h = ground arith

was_seen : (m s : Bool) → (m ≡ true → s ≡ true) → (m && not s) ≡ false
was_seen true s h = ground (arith, h refl)
was_seen false s h = refl

stays : (u n o : Bool) → (u ≡ true → n ≡ true → o ≡ true) → (u && n && not o) ≡ false
stays true true o h = ground (arith, h refl refl)
stays true false o h = refl
stays false n o h = refl

abbrev NotTwice : Bool → Bool → Type 0
NotTwice unresolved seen = (unresolved && seen) ≡ false

NotTwice-and : (u p q : Bool) → NotTwice u p → NotTwice u (p && q)
NotTwice-and u p q h = ground arith

module _ (uuid : String → ℕ → ℕ) (print : ℕ → String) where
  pub detect-IsUnique :
      (tables : Tables) (check : OrphanCheck) (now : ℕ) (rows : List (ℕ × Option ℕ))
      (findings : List IntegrityFinding)
      → IsUnique findings
      → IsUnique (detect uuid print tables check now rows findings).1
  unfolding detect
  detect-IsUnique tables check now [] findings u = u
  detect-IsUnique tables check now ((id, reference) ∷ rows) findings u =
      let missing = is_missing_reference tables check reference in
      let seen = is_open check.name id findings in
      elim (Bool-cases (missing && not seen)) [
        | inl fresh ↦
            let unseen : seen ≡ false = unnot (and_right missing (not seen) fresh) in
            rw fresh (detect-IsUnique tables check now rows _ (unseen, u))
        | inr old ↦ rw old (detect-IsUnique tables check now rows findings u)
      ]

  -- Where every orphan has an open finding already, nothing is inserted.
  pub detect-settled :
      (tables : Tables) (check : OrphanCheck) (now : ℕ) (rows : List (ℕ × Option ℕ))
      (findings : List IntegrityFinding)
      → ((i : ℕ) → is_orphan tables check i rows ≡ true → is_open check.name i findings ≡ true)
      → detect uuid print tables check now rows findings ≡ (0, findings)
  unfolding detect
  detect-settled tables check now [] findings h = refl
  detect-settled tables check now ((id, reference) ∷ rows) findings h =
      let missing = is_missing_reference tables check reference in
      let seen = is_open check.name id findings in
      let here : missing ≡ true → seen ≡ true = λ m. h id (or_here _ _ _ (beq_self id) m) in
      let rest = detect-settled tables check now rows findings (λ i o. h i (or_there _ _ o)) in
      let old : (missing && not seen) ≡ false = was_seen missing seen here in rw old rest

pub resolve-IsUnique :
    (tables : Tables) (check : OrphanCheck) (now : ℕ) (findings : List IntegrityFinding)
    → IsUnique findings
    → IsUnique (resolve tables check now findings).1
unfolding resolve
resolve-IsUnique tables check now [] u = tt
resolve-IsUnique tables check now (f ∷ findings) u =
    let rest = resolve-IsUnique tables check now findings u.1 in
    elim (Bool-cases (is_gone tables check f)) [
      | inl gone ↦ rw gone (refl, rest)
      | inr kept ↦ rw kept (
        rw (resolve-is_open tables check now findings f.check_name f.source_id) (
            NotTwice-and (not (is_some f.resolved_at)) (is_open f.check_name f.source_id findings) _
              u.0),
        rest,
      )
    ]

-- Where every open finding of the check is on an orphan, none is resolved.
pub resolve-settled :
    (tables : Tables) (check : OrphanCheck) (now : ℕ) (findings : List IntegrityFinding)
    → ((i : ℕ)
        → is_open check.name i findings ≡ true
        → is_orphan tables check i (source_rows tables check) ≡ true)
    → resolve tables check now findings ≡ (0, findings)
unfolding resolve
resolve-settled tables check now [] h = refl
resolve-settled tables check now (f ∷ findings) h =
    let rest = resolve-settled tables check now findings (λ i o. h i (or_there _ _ o)) in
    let orphan = is_orphan tables check f.source_id (source_rows tables check) in
    let kept : is_gone tables check f ≡ false =
      stays (not (is_some f.resolved_at)) (f.check_name == check.name) orphan
        (λ u n. h f.source_id (all_here _ _ _ _ n (beq_self f.source_id) u)) in
    rw (kept, rest) refl
