-- ===== src/Reporting/Repeats.antt =====
-- crates/module-reporting/src/job.rs: what runs keep of the findings, whatever fails, and a run that
-- repeats another.
use rust_api_modular_monolit.Base.{
  ℕ, ◌≡◌, refl, ap, sym, ◌∙◌, inl, inr, String, Bool, true, false, ◌&&◌, ◌||◌, List, [], ◌∷◌,
  Option, none, some, All, Option-cases,
}
use rust_api_modular_monolit.Base.Result.{Result, ok, err}
use rust_api_modular_monolit.Reporting.{
  IntegrityFinding, OrphanCheck, Tables, is_open, is_orphan, source_rows, orphan_checks, count_open,
  Statement,
}
use rust_api_modular_monolit.Reporting.Job.{
  Round, Counters, run_check, run_loop, run_checks, report_run, after_detect,
}
use rust_api_modular_monolit.Reporting.Checks.{
  IsUnique, detect-IsUnique, resolve-IsUnique, detect-settled, resolve-settled,
}
use rust_api_modular_monolit.Reporting.Runs.{open_after, run_checks-FindsOrphans}

-- The loop goes on with the rest where a round has succeeded.
loop_on :
    (next : Counters → List IntegrityFinding → Result Counters String × List IntegrityFinding)
    → ((c : Counters) (after : List IntegrityFinding) → IsUnique after → IsUnique (next c after).1)
    → (r : Result Counters String × List IntegrityFinding) → IsUnique r.1
    → IsUnique
        (elim r.0 as (λ x. Result Counters String × List IntegrityFinding) [
          | err fault ↦ (err fault, r.1)
          | ok c ↦ next c r.1
        ]).1
loop_on next keeps (err fault, after) u = u
loop_on next keeps (ok c, after) u = keeps c after u

module _ (uuid : String → ℕ → ℕ) (print : ℕ → String) (now : ℕ) where
  after_detect-IsUnique :
      (fault : Option String) (tables : Tables) (check : OrphanCheck) (counters : Counters)
      (s : Statement)
      → IsUnique s.1
      → IsUnique (after_detect uuid print now fault tables check counters s).1
  after_detect-IsUnique none tables check counters s u = resolve-IsUnique tables check now s.1 u
  after_detect-IsUnique (some fault) tables check counters s u = u

  run_check-IsUnique :
      (round : Round) (check : OrphanCheck) (counters : Counters) (findings : List IntegrityFinding)
      → IsUnique findings
      → IsUnique (run_check uuid print now round check counters findings).1
  unfolding run_check
  run_check-IsUnique round check counters findings u = elim (Option-cases round.detect_fault) [
    | inl e ↦
        rw (e, run_check)
          (after_detect-IsUnique round.resolve_fault round.at_resolve check counters _ (
            detect-IsUnique uuid print round.at_detect check now (source_rows round.at_detect check)
              findings u))
    | inr (fault, e) ↦ rw (e, run_check) u
  ]

  run_loop-IsUnique :
      (rounds : OrphanCheck → Round) (checks : List OrphanCheck) (counters : Counters)
      (findings : List IntegrityFinding)
      → IsUnique findings
      → IsUnique (run_loop uuid print now rounds checks counters findings).1
  unfolding run_loop
  run_loop-IsUnique rounds [] counters findings u = u
  run_loop-IsUnique rounds (check ∷ checks) counters findings u =
      loop_on (run_loop uuid print now rounds checks)
        (λ c after. run_loop-IsUnique rounds checks c after)
        (run_check uuid print now (rounds check) check counters findings)
        (run_check-IsUnique (rounds check) check counters findings u)

  report_run-IsUnique :
      (fault : Option String) (r : Result Counters String × List IntegrityFinding)
      → IsUnique r.1
      → IsUnique (report_run uuid print now fault r).1
  report_run-IsUnique fault (err reason, findings) u = u
  report_run-IsUnique (some fault) (ok counters, findings) u = u
  report_run-IsUnique none (ok counters, findings) u = u

  -- A row never has two open findings of a check: a run keeps it so, whichever of its statements
  -- fails.
  pub run_checks-IsUnique :
      (rounds : OrphanCheck → Round) (fault : Option String) (findings : List IntegrityFinding)
      → IsUnique findings
      → IsUnique (run_checks uuid print now rounds fault findings).1
  unfolding run_checks
  run_checks-IsUnique rounds fault findings u =
      report_run-IsUnique fault _ (run_loop-IsUnique rounds orphan_checks (0, 0) findings u)

-- Rounds that see the same tables throughout, without failures.
abbrev pub still : Tables → OrphanCheck → Round
still tables check = record {
  at_detect = tables;
  at_resolve = tables;
  detect_fault = none;
  resolve_fault = none;
}

-- The open findings of a check are its orphans.
abbrev Tells : Tables → List IntegrityFinding → OrphanCheck → Type 0
Tells tables findings check =
    (i : ℕ) → is_open check.name i findings ≡ is_orphan tables check i (source_rows tables check)

module _ (uuid : String → ℕ → ℕ) (print : ℕ → String) (now : ℕ) (tables : Tables) where
  run_check-still :
      (check : OrphanCheck) (findings : List IntegrityFinding)
      → Tells tables findings check
      → run_check uuid print now (still tables check) check (0, 0) findings ≡ (ok (0, 0), findings)
  unfolding run_check
  run_check-still check findings h =
      let rows = source_rows tables check in
      rw
        (
          detect-settled uuid print tables check now rows findings (λ i o. h i ∙ o),
          resolve-settled tables check now findings (λ i o. sym (h i) ∙ o),
        )
        refl

  run_loop-still :
      (checks : List OrphanCheck) (findings : List IntegrityFinding)
      → All (Tells tables findings) checks
      → run_loop uuid print now (still tables) checks (0, 0) findings ≡ (ok (0, 0), findings)
  unfolding run_loop
  run_loop-still [] findings h = refl
  run_loop-still (check ∷ checks) findings h =
      ap
        (λ r. elim r.0 [
          | err fault ↦ (err fault, r.1)
          | ok c ↦ run_loop uuid print now (still tables) checks c r.1
        ])
        (run_check-still check findings h.0)
      ∙ run_loop-still checks findings h.1

absorbed : (p o : Bool) → ((p || o) && o) ≡ o
absorbed true true = refl
absorbed true false = refl
absorbed false true = refl
absorbed false false = refl

All-Tells :
    (tables : Tables) (before after : List IntegrityFinding) (checks : List OrphanCheck)
    → All
        (λ check.
          (i : ℕ)
          → is_open check.name i after
            ≡ open_after (still tables check) check i (is_open check.name i before))
        checks
    → All (Tells tables after) checks
All-Tells tables before after [] h = tt
All-Tells tables before after (check ∷ checks) h = (
  λ i. h.0 i ∙ absorbed (is_open check.name i before) _,
  All-Tells tables before after checks h.1,
)

module _ (uuid : String → ℕ → ℕ) (print : ℕ → String) (tables : Tables) where
  -- A run that follows a run on the same tables, neither failing, detects nothing, resolves nothing
  -- and leaves the findings as they are.
  pub run_checks-repeated :
      (now later : ℕ) (findings : List IntegrityFinding)
      → run_checks uuid print later
          (still tables)
          none
          (run_checks uuid print now (still tables) none findings).1
        ≡ (
          ok (record {
            detected = 0;
            resolved = 0;
            open_findings = count_open (run_checks uuid print now (still tables) none findings).1;
            ran_at = later;
          }),
          (run_checks uuid print now (still tables) none findings).1,
        )
  unfolding run_checks
  run_checks-repeated now later findings =
      let first =
        run_checks-FindsOrphans uuid print now (still tables) findings (λ check. (refl, refl)) in
      let tells =
        All-Tells tables findings (run_checks uuid print now (still tables) none findings).1
          orphan_checks first.finds in
      ap (report_run uuid print later none)
        (run_loop-still uuid print later tables orphan_checks _ tells)
