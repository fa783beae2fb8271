-- ===== src/Reporting/Job.antt =====
-- A run of the checks: `run_checks` of crates/module-reporting/src/job.rs.
use rust_api_modular_monolit.Base.{
  ℕ, ◌+◌, ◌-◌, ◌%◌, ◌^◌, String, List, [], ◌∷◌, Option, none, some, if◌then◌else◌, leb, eq_string,
}
use rust_api_modular_monolit.Base.Result.{Result, ok, err}
use rust_api_modular_monolit.Reporting.{
  IntegrityFinding, OrphanCheck, orphan_checks, Tables, source_rows, Statement, detect, resolve,
  count_open,
}

-- `IntegrityRunResult`
pub record IntegrityRunResult : Type 0 where
  pub detected : ℕ
  pub resolved : ℕ
  pub open_findings : ℕ
  pub ran_at : ℕ

-- What a check's two statements meet: the tables that each sees, and whether it fails.
pub record Round : Type 0 where
  pub at_detect : Tables
  pub at_resolve : Tables
  pub detect_fault : Option String
  pub resolve_fault : Option String

-- `+=` of `u64`, and `i64::try_from` with `unwrap_or`.
abbrev pub add_u64 : ℕ → ℕ → ℕ
add_u64 a b = (a + b) % 2 ^ 64

abbrev pub to_i64 : ℕ → ℕ
to_i64 n = if leb n (2 ^ 63 - 1) then n else 2 ^ 63 - 1

-- The counters of the loop.
abbrev pub Counters : Type 0
Counters = ℕ × ℕ

module _ (uuid : String → ℕ → ℕ) (print : ℕ → String) (now : ℕ) where
  abbrev pub after_detect :
      Option String
      → Tables
      → OrphanCheck
      → Counters
      → Statement
      → Result Counters String × List IntegrityFinding
  after_detect (some fault) tables check (detected, resolved) (inserted, findings) =
      (err fault, findings)
  after_detect none tables check (detected, resolved) (inserted, findings) =
      let (updated, left) = resolve tables check now findings in
      (ok (add_u64 detected inserted, add_u64 resolved updated), left)

  -- One round of the loop. Each statement commits for itself.
  unfoldable pub run_check :
      Round
      → OrphanCheck
      → Counters
      → List IntegrityFinding
      → Result Counters String × List IntegrityFinding
  unfolding detect resolve
  run_check round check counters findings = elim round.detect_fault [
    | some fault ↦ (err fault, findings)
    | none ↦
        after_detect round.resolve_fault round.at_resolve check counters
          (detect uuid print round.at_detect check now (source_rows round.at_detect check) findings)
  ]

  -- The loop over the checks; an error ends it.
  unfoldable pub run_loop :
      (OrphanCheck → Round)
      → List OrphanCheck
      → Counters
      → List IntegrityFinding
      → Result Counters String × List IntegrityFinding
  unfolding run_check
  run_loop rounds [] counters findings = (ok counters, findings)
  run_loop rounds (check ∷ checks) counters findings =
      let (answer, after) = run_check (rounds check) check counters findings in
      elim answer [
        | err fault ↦ (err fault, after)
        | ok counters' ↦ run_loop rounds checks counters' after
      ]

  abbrev pub report_run :
      Option String
      → Result Counters String × List IntegrityFinding
      → Result IntegrityRunResult String × List IntegrityFinding
  report_run fault (err reason, findings) = (err reason, findings)
  report_run (some fault) (ok counters, findings) = (err fault, findings)
  report_run none (ok (detected, resolved), findings) = (
    ok (record {
      detected = to_i64 detected;
      resolved = to_i64 resolved;
      open_findings = count_open findings;
      ran_at = now;
    }),
    findings,
  )

  -- `run_checks`; `fault` is a failure of the last query.
  unfoldable pub run_checks :
      (OrphanCheck → Round)
      → Option String
      → List IntegrityFinding
      → Result IntegrityRunResult String × List IntegrityFinding
  unfolding run_loop
  run_checks rounds fault findings =
      report_run fault (run_loop rounds orphan_checks (0, 0) findings)
