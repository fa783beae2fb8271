-- ===== src/Reporting/Runs.antt =====
-- crates/module-reporting/src/job.rs: what a run of all checks leaves open.
use rust_api_modular_monolit.Base.{
  ℕ, ◌≡◌, refl, ap, sym, ◌∙◌, String, Bool, true, false, not, ◌&&◌, ◌||◌, List, [], ◌∷◌, none,
  if◌then◌else◌, eq_string, ◌==◌, All, subst,
}
use rust_api_modular_monolit.Base.Result.{Result, ok, err, is_ok}
use rust_api_modular_monolit.Reporting.{
  IntegrityFinding, OrphanCheck, is_open, is_orphan, detect, resolve, source_rows, orphan_checks,
}
use rust_api_modular_monolit.Reporting.Job.{
  IntegrityRunResult, Round, Counters, run_check, run_loop, run_checks, report_run, add_u64,
}
use rust_api_modular_monolit.Reporting.Findings.{detect-is_open, resolve-is_open}

-- No statement of the rounds fails.
abbrev pub Quiet : (OrphanCheck → Round) → Type 0
Quiet rounds =
    (check : OrphanCheck)
    → ((rounds check).detect_fault ≡ none) × ((rounds check).resolve_fault ≡ none)

-- Whether a row is an orphan of a check when its findings are looked for, and when they are resolved.
abbrev pub orphan_before : Round → OrphanCheck → ℕ → Bool
orphan_before round check i = is_orphan round.at_detect check i (source_rows round.at_detect check)

abbrev pub orphan_after : Round → OrphanCheck → ℕ → Bool
orphan_after round check i = is_orphan round.at_resolve check i (source_rows round.at_resolve check)

-- What a round makes of a finding that was open or not.
abbrev pub open_after : Round → OrphanCheck → ℕ → Bool → Bool
open_after round check i was = (was || orphan_before round check i) && orphan_after round check i

round_algebra :
    (p a d r : Bool) → ((p || (a && d)) && (not a || r)) ≡ (if a then (p || d) && r else p)
round_algebra p true d r = refl
round_algebra true false d r = refl
round_algebra false false d r = refl

module _ (uuid : String → ℕ → ℕ) (print : ℕ → String) (now : ℕ) where
  -- A round that does not fail.
  abbrev settle : Round → OrphanCheck → List IntegrityFinding → List IntegrityFinding
  settle round check findings =
      (resolve round.at_resolve check now
        (detect uuid print round.at_detect check now (source_rows round.at_detect check)
          findings).1).1

  settle-is_open :
      (round : Round) (check : OrphanCheck) (findings : List IntegrityFinding) (n : String) (i : ℕ)
      → is_open n i (settle round check findings) ≡ (
          if check.name == n
          then open_after round check i (is_open n i findings)
          else is_open n i findings)
  settle-is_open round check findings n i =
      resolve-is_open round.at_resolve check now _ n i
      ∙ ap (λ b. b && (not (check.name == n) || orphan_after round check i))
          (detect-is_open uuid print round.at_detect check now (source_rows round.at_detect check)
            findings n i)
      ∙ round_algebra (is_open n i findings) (check.name == n) (orphan_before round check i)
          (orphan_after round check i)

  run_check_quiet :
      (round : Round) (check : OrphanCheck) (counters : Counters) (findings : List IntegrityFinding)
      → round.detect_fault ≡ none
      → round.resolve_fault ≡ none
      → (counters' : Counters) × (run_check uuid print now round check counters findings
          ≡ (ok counters', settle round check findings))
  unfolding run_check
  run_check_quiet round check (detected, resolved) findings h k =
      let (inserted, between) =
        detect uuid print round.at_detect check now (source_rows round.at_detect check) findings in
      let updated = (resolve round.at_resolve check now between).0 in
      ((add_u64 detected inserted, add_u64 resolved updated), rw (h, run_check, k) refl)

  -- The findings after rounds that do not fail.
  abbrev settle_all :
      (OrphanCheck → Round) → List OrphanCheck → List IntegrityFinding → List IntegrityFinding
  settle_all rounds [] findings = findings
  settle_all rounds (check ∷ checks) findings =
      settle_all rounds checks (settle (rounds check) check findings)

  run_loop-Quiet :
      (rounds : OrphanCheck → Round) (checks : List OrphanCheck) (counters : Counters)
      (findings : List IntegrityFinding)
      → Quiet rounds
      → (counters' : Counters) × (run_loop uuid print now rounds checks counters findings
          ≡ (ok counters', settle_all rounds checks findings))
  unfolding run_loop
  run_loop-Quiet rounds [] counters findings q = (counters, refl)
  run_loop-Quiet rounds (check ∷ checks) counters findings q =
      let (between, e) =
        run_check_quiet (rounds check) check counters findings (q check).0 (q check).1 in
      let (counters', f) =
        run_loop-Quiet rounds checks between (settle (rounds check) check findings) q in
      (
        counters',
        ap
              (λ r. elim r.0 [
                | err fault ↦ (err fault, r.1)
                | ok c ↦ run_loop uuid print now rounds checks c r.1
              ])
              e
            ∙ f,
      )

  -- What the rounds make of one finding.
  abbrev open_through : (OrphanCheck → Round) → List OrphanCheck → String → ℕ → Bool → Bool
  open_through rounds [] n i was = was
  open_through rounds (check ∷ checks) n i was =
      open_through rounds checks n i
        (if check.name == n then open_after (rounds check) check i was else was)

  settle_all-is_open :
      (rounds : OrphanCheck → Round) (checks : List OrphanCheck) (findings : List IntegrityFinding)
      (n : String) (i : ℕ)
      → is_open n i (settle_all rounds checks findings)
        ≡ open_through rounds checks n i (is_open n i findings)
  settle_all-is_open rounds [] findings n i = refl
  settle_all-is_open rounds (check ∷ checks) findings n i =
      settle_all-is_open rounds checks (settle (rounds check) check findings) n i
      ∙ ap (open_through rounds checks n i) (settle-is_open (rounds check) check findings n i)

  -- What a run without failures tells: it answers, and a row has an open finding of a check exactly
  -- when it is an orphan at the check's end that had one or was an orphan at its start.
  pub record FindsOrphans (rounds : OrphanCheck → Round) (before : List IntegrityFinding)
      (run : Result IntegrityRunResult String × List IntegrityFinding) : Type 0 where
    pub answers : is_ok run.0 ≡ true
    pub finds :
        All
          (λ check.
            (i : ℕ)
            → is_open check.name i run.1
              ≡ open_after (rounds check) check i (is_open check.name i before))
          orphan_checks

  -- Where no statement fails a run answers, and a row has an open finding of a check afterwards
  -- exactly when it is an orphan as the check's second statement sees the tables, and had an open
  -- finding or was an orphan as the first statement saw them.
  pub run_checks-FindsOrphans :
      (rounds : OrphanCheck → Round) (findings : List IntegrityFinding)
      → Quiet rounds
      → FindsOrphans rounds findings (run_checks uuid print now rounds none findings)
  unfolding run_checks
  run_checks-FindsOrphans rounds findings q =
      let (counters, e) = run_loop-Quiet rounds orphan_checks (0, 0) findings q in
      let same = settle_all-is_open rounds orphan_checks findings in
      subst (λ r. FindsOrphans rounds findings (report_run uuid print now none r)) (sym e)
        (record { answers = refl; finds = (same _, (same _, (same _, (same _, tt)))) })
