-- ===== src/Reporting.antt =====
-- The integrity job of crates/module-reporting/src/job.rs, with the checks of
-- crates/module-reporting/src/sql.rs and the rows of models.rs. The other modules' tables are an
-- argument of a statement: each sees them as they are when it runs. The random ids of findings and
-- the printing of numbers are parameters. Times are in nanoseconds.
pub mod Findings
pub mod Checks
pub mod Job
pub mod Runs
pub mod Repeats
pub mod Schedule
mod Tests
use rust_api_modular_monolit.Base.{
  ℕ, suc, ◌+◌, ◌-◌, ◌*◌, ◌/◌, ◌%◌, ◌^◌, String, Bool, true, false, not, ◌&&◌, List, [], ◌∷◌, Option,
  none, some, if◌then◌else◌, leb, nat_eq, eq_string, ◌==◌, any, is_some,
}
use rust_api_modular_monolit.Base.Result.{Result, ok, err, ◌>>=◌}
use rust_api_modular_monolit.Base.Text.{format}

-- `IntegrityFinding`
pub record IntegrityFinding : Type 0 where
  pub id : ℕ
  pub check_name : String
  pub source_schema : String
  pub source_table : String
  pub source_id : ℕ
  pub missing_reference : String
  pub detected_at : ℕ
  pub resolved_at : Option ℕ

-- `OrphanCheck`
pub record OrphanCheck : Type 0 where
  pub name : String
  pub source_schema : String
  pub source_table : String
  pub reference_column : String
  pub target_schema : String
  pub target_table : String

-- `ORPHAN_CHECKS`
abbrev pub orphan_checks : List OrphanCheck
orphan_checks =
    record {
      name = "invoice-line-track";
      source_schema = "orders";
      source_table = "InvoiceLine";
      reference_column = "TrackId";
      target_schema = "catalog";
      target_table = "Track";
    }
    ∷ record {
      name = "invoice-customer";
      source_schema = "orders";
      source_table = "Invoice";
      reference_column = "CustomerId";
      target_schema = "administration";
      target_table = "Customer";
    }
    ∷ record {
      name = "track-genre";
      source_schema = "catalog";
      source_table = "Track";
      reference_column = "GenreId";
      target_schema = "administration";
      target_table = "Genre";
    }
    ∷ record {
      name = "track-media-type";
      source_schema = "catalog";
      source_table = "Track";
      reference_column = "MediaTypeId";
      target_schema = "administration";
      target_table = "MediaType";
    }
    ∷ []

abbrev pub missing_reference_prefix : OrphanCheck → String
missing_reference_prefix check = format (check.target_schema ∷ "." ∷ check.target_table ∷ " " ∷ [])

-- The rows of a table, by schema and name: a column of each beside the row's id.
pub record Tables : Type 0 where
  pub references : String → String → String → List (ℕ × Option ℕ)
  pub ids : String → String → List ℕ

abbrev pub source_rows : Tables → OrphanCheck → List (ℕ × Option ℕ)
source_rows tables check =
    tables.references check.source_schema check.source_table check.reference_column

-- `orphan`: the reference is there, and no row of the target has it.
abbrev pub is_missing_reference : Tables → OrphanCheck → Option ℕ → Bool
is_missing_reference tables check none = false
is_missing_reference tables check (some reference) =
    not (any (nat_eq reference) (tables.ids check.target_schema check.target_table))

-- An unresolved finding of a check on a row: the partial unique index of the findings.
abbrev pub is_finding : String → ℕ → IntegrityFinding → Bool
is_finding name id finding =
    (finding.check_name == name) && nat_eq finding.source_id id && not (is_some finding.resolved_at)

abbrev pub is_open : String → ℕ → List IntegrityFinding → Bool
is_open name id = any (is_finding name id)

-- A row of the source that is an orphan.
abbrev pub is_orphan : Tables → OrphanCheck → ℕ → List (ℕ × Option ℕ) → Bool
is_orphan tables check id = any (λ row. nat_eq row.0 id && is_missing_reference tables check row.1)

-- What the statements of a run answer, and the findings that they leave.
abbrev pub Statement : Type 0
Statement = ℕ × List IntegrityFinding

module _ (uuid : String → ℕ → ℕ) (print : ℕ → String) where
  abbrev pub new_finding : OrphanCheck → ℕ → ℕ → Option ℕ → IntegrityFinding
  new_finding check now id reference = record {
    id = uuid check.name id;
    check_name = check.name;
    source_schema = check.source_schema;
    source_table = check.source_table;
    source_id = id;
    missing_reference = elim reference [
      | none ↦ ""
      | some n ↦ format (missing_reference_prefix check ∷ print n ∷ [])
    ];
    detected_at = now;
    resolved_at = none;
  }

  -- `detect_sql` over the rows of the source: `DO NOTHING` where the row has a finding that is open.
  unfoldable pub detect :
      Tables → OrphanCheck → ℕ → List (ℕ × Option ℕ) → List IntegrityFinding → Statement
  detect tables check now [] findings = (0, findings)
  detect tables check now ((id, reference) ∷ rows) findings =
      let fresh =
        is_missing_reference tables check reference && not (is_open check.name id findings) in
      let found = new_finding check now id reference ∷ findings in
      let rest = detect tables check now rows (if fresh then found else findings) in
      ((if fresh then suc rest.0 else rest.0), rest.1)

-- Whether `resolve_sql` sets the time of a finding.
abbrev pub is_gone : Tables → OrphanCheck → IntegrityFinding → Bool
is_gone tables check finding =
    not (is_some finding.resolved_at)
    && (finding.check_name == check.name)
    && not (is_orphan tables check finding.source_id (source_rows tables check))

-- `resolve_sql`
unfoldable pub resolve : Tables → OrphanCheck → ℕ → List IntegrityFinding → Statement
resolve tables check now [] = (0, [])
resolve tables check now (finding ∷ findings) =
    let rest = resolve tables check now findings in
    if is_gone tables check finding
    then (suc rest.0, record finding { resolved_at = some now } ∷ rest.1)
    else (rest.0, finding ∷ rest.1)

-- The count of the findings that are open, across all checks.
abbrev pub count_open : List IntegrityFinding → ℕ
count_open [] = 0
count_open (finding ∷ findings) =
    let rest = count_open findings in if is_some finding.resolved_at then rest else suc rest
