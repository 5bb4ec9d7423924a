-- ===== src/TableEntry.antt =====
-- src/paimon_storage/paimon_table_entry.cpp: the scan of an attached table, as `paimon_scan` of it.
pub mod TimeTravel
pub mod WriteTarget
use duckdb_paimon.Prelude.{
  String, ◌==◌, Bool, not, Option, none, some, List, [], ◌∷◌, Map, if◌then◌else◌,
}
use duckdb_paimon.Sql.{Result, ok, throw, throw_if, invalid_input, ◌>>=◌, ◌>>◌}
use duckdb_paimon.TablePath.{Text}
use duckdb_paimon.Catalog.Options.{Environment, CatalogKeys, ci_equals}
use duckdb_paimon.Scan.{ScanBindData}
use duckdb_paimon.Scan.Bind.{ScanPlatform, scan_bind}

-- A bound AT clause, its value as text.
pub record AtClause : Type 0 where
  pub unit : String
  pub value : String

-- DuckDB: `StringUtil::Upper`, the casts of a clause's value, and whether `paimon_scan` is registered.
pub record AtPlatform : Type 0 where
  pub upper : String → String
  pub cast_bigint : String → Result String
  pub cast_timestamp : String → Result String
  pub has_scan_function : Bool

module _ (env : Environment) (keys : CatalogKeys) where
  -- `map[name] = value` of a map whose keys are compared without case: the first spelling stays.
  unfoldable pub assign_parameter : String → String → Map String → Map String
  assign_parameter name text [] = (name, text) ∷ []
  assign_parameter name text ((other, old) ∷ parameters) =
      if ci_equals env keys other name
      then (other, text) ∷ parameters
      else (other, old) ∷ assign_parameter name text parameters

  -- The attach options, set one after the other.
  unfoldable pub assign_parameters : Map String → Map String → Map String
  assign_parameters [] parameters = parameters
  assign_parameters ((name, text) ∷ options) parameters =
      assign_parameters options (assign_parameter name text parameters)

  module _ (at : AtPlatform) where
    -- A parameter set to the text of a cast.
    unfoldable pub set_cast : String → Result String → Map String → Result (Map String)
    set_cast name cast parameters = do text ← cast; ok (assign_parameter name text parameters)

    unfoldable pub at_parameter : AtClause → Map String → Result (Map String)
    at_parameter clause parameters =
        if at.upper clause.unit == "VERSION"
        then set_cast "snapshot_from_id" (at.cast_bigint clause.value) parameters
        else if at.upper clause.unit == "TIMESTAMP"
        then set_cast "snapshot_from_timestamp" (at.cast_timestamp clause.value) parameters
        else throw (invalid_input "Unsupported AT unit for Paimon. Use VERSION or TIMESTAMP.")

    unfoldable pub at_parameters : Option AtClause → Map String → Result (Map String)
    at_parameters none parameters = ok parameters
    at_parameters (some clause) parameters = at_parameter clause parameters

    -- `GetScanFunction`: the bind data of the scan of a table, by the path of the database, the schema and
    -- the name; `uuid` is the new random identifier of the bind.
    unfoldable pub get_scan_function :
        {Predicate Split : Type 0}
        → ScanPlatform
        → Text
        → Text
        → Text
        → Text
        → Map String
        → Option AtClause
        → Result (ScanBindData Predicate Split)
    get_scan_function platform uuid db_path schema name attach_options clause = do
      throw_if (not at.has_scan_function) (invalid_input "Function \"paimon_scan\" not found")
      parameters ← at_parameters clause (assign_parameters attach_options [])
      scan_bind platform env keys uuid (db_path ∷ schema ∷ name ∷ []) parameters
