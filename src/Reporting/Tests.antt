-- ===== src/Reporting/Tests.antt =====
-- Two runs of the checks on small tables, one with a track that is gone.
use rust_api_modular_monolit.Base.{
  ℕ, ◌+◌, ◌%◌, ◌<◌, ◌≤◌, ◌≡◌, refl, String, [], ◌∷◌, none, some, if◌then◌else◌, eq_string, ◌==◌,
  arith,
}
use rust_api_modular_monolit.Base.Result.{ok}
use rust_api_modular_monolit.Reporting.{
  IntegrityFinding, OrphanCheck, Tables, detect, resolve, count_open,
}
use rust_api_modular_monolit.Reporting.Job.{Round, run_checks, run_loop, run_check}
use rust_api_modular_monolit.Reporting.Checks.{IsUnique}
use rust_api_modular_monolit.Reporting.Runs.{FindsOrphans, run_checks-FindsOrphans}
use rust_api_modular_monolit.Reporting.Repeats.{still, run_checks-IsUnique, run_checks-repeated}
use rust_api_modular_monolit.Reporting.Schedule.{until_next, day, until_next-bounds}

abbrev uuid : String → ℕ → ℕ
uuid name id = 1000 + id

abbrev print : ℕ → String
print n = "42"

-- Line 1 is of track 42, which is gone, and line 2 of track 7.
abbrev tables : Tables
tables = record {
  references = λ schema table column.
      if table == "InvoiceLine" then (1, some 42) ∷ (2, some 7) ∷ (3, none) ∷ [] else [];
  ids = λ schema table. 7 ∷ [];
}

abbrev stale : IntegrityFinding
stale = record {
  id = 1;
  check_name = "invoice-line-track";
  source_schema = "orders";
  source_table = "InvoiceLine";
  source_id = 2;
  missing_reference = "catalog.Track 7";
  detected_at = 5;
  resolved_at = none;
}

found_and_resolved :
    (run_checks uuid print 10 (still tables) none (stale ∷ [])).0
    ≡ ok (record { detected = 1; resolved = 1; open_findings = 1; ran_at = 10 })
unfolding run_checks run_loop run_check detect resolve
found_and_resolved = refl

abbrev failing : OrphanCheck → Round
failing check = record {
  at_detect = tables;
  at_resolve = tables;
  detect_fault = none;
  resolve_fault = some "down";
}

run_checks-FindsOrphans_example :
    FindsOrphans uuid print 10
      (still tables)
      (stale ∷ [])
      (run_checks uuid print 10 (still tables) none (stale ∷ []))
run_checks-FindsOrphans_example =
    run_checks-FindsOrphans uuid print 10 (still tables) (stale ∷ []) (λ check. (refl, refl))

run_checks-IsUnique_example : IsUnique (run_checks uuid print 10 failing none (stale ∷ [])).1
run_checks-IsUnique_example = run_checks-IsUnique uuid print 10 failing none (stale ∷ []) (refl, tt)

run_checks-repeated_example :
    run_checks uuid print 20
      (still tables)
      none
      (run_checks uuid print 10 (still tables) none (stale ∷ [])).1
    ≡ (
      ok (record {
        detected = 0;
        resolved = 0;
        open_findings = count_open (run_checks uuid print 10 (still tables) none (stale ∷ [])).1;
        ran_at = 20;
      }),
      (run_checks uuid print 10 (still tables) none (stale ∷ [])).1,
    )
run_checks-repeated_example = run_checks-repeated uuid print tables 10 20 (stale ∷ [])

until_next-bounds_example :
    (0 < until_next 5 5) × (until_next 5 5 ≤ day) × ((5 + until_next 5 5) % day ≡ 5)
until_next-bounds_example = until_next-bounds 5 5 (omega arith)
