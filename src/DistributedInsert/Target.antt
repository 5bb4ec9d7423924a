-- ===== src/DistributedInsert/Target.antt =====
-- The target table as the catalog has it now: `LoadTableUUID` and `LoadTargetState`. A call of the catalog
-- also gives the store after it, in which other processes may have changed the table between two calls.
use duckdb_paimon.Prelude.{
  Bool, not, ◌||◌, String, ◌==◌, Option, none, some, List, [], ◌∷◌, eqb, is_empty, length,
  same_list, is_some, Map, lookup, if◌then◌else◌,
}
use duckdb_paimon.Prelude.Int.{ℤ, pos}
use duckdb_paimon.Sql.{LogicalType, Result, ok, throw, io_exception, transaction_exception}
use duckdb_paimon.Paimon.{Outcome, value, status}
use duckdb_paimon.TablePath.{Text}
use duckdb_paimon.Catalog.Backend.{Backend}
use duckdb_paimon.DistributedInsert.Actions.{Action, pure, reads, raise_if, ◌>>=◌, ◌>>◌}

-- paimon::DataSchema with its Arrow schema, which `PopulateArrowTableSchema` turns into names and types
-- and may throw.
pub record DataSchema : Type 0 where
  pub id : ℤ
  pub primary_keys : List String
  pub part_keys : List String
  pub options : Map String
  pub field_names : List String
  pub arrow_schema : Outcome (Option (Result (List String × List LogicalType)))
  pub json : Outcome Text

-- paimon::Catalog on a database and a table. Null pointers are none; a schema that is no data schema too.
pub record TableCatalog (b : Backend) : Type 0 where
  pub table_exists : b.Store → String → String → Outcome Bool × b.Store
  -- `GetTable` and `Uuid`
  pub table_uuid : b.Store → String → String → Outcome (Option String) × b.Store
  pub table_location : b.Store → String → String → Outcome String × b.Store
  pub load_schema : b.Store → String → String → Outcome (Option DataSchema) × b.Store
  -- The ids of `ListSnapshots`
  pub list_snapshots : b.Store → String → String → Outcome (List ℤ) × b.Store

-- `PaimonDistributedTargetState`
pub record TargetState : Type 0 where
  pub table_uuid : String
  pub table_path : String
  pub table_schema_json : Text
  pub schema_id : ℤ
  pub append_only : Bool
  pub has_snapshot : Bool
  pub snapshot_id : ℤ
  pub field_names : List String
  pub field_types : List LogicalType
  pub part_keys : List String
  pub primary_keys : List String
  pub table_options : Map String
  pub null_part_name : String

abbrev pub answered : {A : Type 0} → Outcome A → Result A
answered (value a) = ok a
answered (status e) = throw (io_exception e.text)

abbrev pub ask : {S A : Type 0} → (S → Outcome A × S) → Action S A
ask f s = (answered (f s).0, (f s).1)

unfoldable pub stable_uuid : Option String → Result String
stable_uuid none = throw (io_exception "Paimon table has no stable table identity")
stable_uuid (some uuid) =
    if uuid == "" then throw (io_exception "Paimon table has an empty table UUID") else ok uuid

unfoldable pub required_schema : Option DataSchema → Result DataSchema
required_schema none =
    throw (io_exception "Failed to resolve Paimon data schema for distributed INSERT")
required_schema (some schema) = ok schema

unfoldable pub required_columns :
    Option (Result (List String × List LogicalType)) → Result (List String × List LogicalType)
required_columns none =
    throw (io_exception "Paimon table has no Arrow schema for distributed INSERT")
required_columns (some columns) = columns

-- `snapshots.back()`
unfoldable pub last_snapshot : List ℤ → Option ℤ
last_snapshot [] = none
last_snapshot (id ∷ []) = some id
last_snapshot (id ∷ next ∷ snapshots) = last_snapshot (next ∷ snapshots)

abbrev or_zero : Option ℤ → ℤ
or_zero none = pos 0
or_zero (some id) = id

-- The partition name of nulls, by the table's options.
unfoldable pub null_part_name_of : String → Map String → String
null_part_name_of key options = elim (lookup key options) [
  | none ↦ "__DEFAULT_PARTITION__"
  | some name ↦ name
]

abbrev pub same_names : List String → List String → Bool
same_names = same_list (λ x y. x == y)

unfoldable pub target_of :
    String
    → String
    → String
    → DataSchema
    → List String × List LogicalType
    → Text
    → Option ℤ
    → TargetState
target_of default_key uuid path schema (names, types) json snapshot = record {
  table_uuid = uuid;
  table_path = path;
  table_schema_json = json;
  schema_id = schema.id;
  append_only = is_empty schema.primary_keys;
  has_snapshot = is_some snapshot;
  snapshot_id = or_zero snapshot;
  field_names = names;
  field_types = types;
  part_keys = schema.part_keys;
  primary_keys = schema.primary_keys;
  table_options = schema.options;
  null_part_name = null_part_name_of default_key schema.options;
}

module _ {b : Backend} (catalog : TableCatalog b) where
  -- `LoadTableUUID`
  unfoldable pub load_table_uuid : String → String → Action b.Store String
  load_table_uuid database table = do
    found ← ask (λ s. catalog.table_uuid s database table)
    reads (λ s. stable_uuid found)

  -- `LoadTargetState`; the key is `PARTITION_DEFAULT_NAME`.
  unfoldable pub load_target_state : String → String → String → Action b.Store TargetState
  load_target_state default_key database table = do
    exists ← ask (λ s. catalog.table_exists s database table)
    raise_if (not exists) (transaction_exception "Paimon table no longer exists")
    uuid ← load_table_uuid database table
    path ← ask (λ s. catalog.table_location s database table)
    found ← ask (λ s. catalog.load_schema s database table)
    schema ← reads (λ s. required_schema found)
    arrow ← reads (λ s. answered schema.arrow_schema)
    columns ← reads (λ s. required_columns arrow)
    raise_if
        (not (same_names columns.0 schema.field_names)
          || not (eqb (length columns.0) (length columns.1)))
        (io_exception "Paimon table field names and types disagree for distributed INSERT")
    json ← reads (λ s. answered schema.json)
    snapshots ← ask (λ s. catalog.list_snapshots s database table)
    again ← load_table_uuid database table
    raise_if (not (again == uuid)) (
        transaction_exception
          "Paimon table was replaced while resolving the distributed INSERT target")
    pure (target_of default_key uuid path schema columns json (last_snapshot snapshots))
