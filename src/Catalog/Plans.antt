-- ===== src/Catalog/Plans.antt =====
-- src/paimon_storage/paimon_catalog.cpp: `Attach` with its access mode, and the operators of `PlanInsert` and
-- `PlanCreateTableAs`.
use duckdb_paimon.Prelude.{
  String, Bool, true, false, ◌||◌, Option, none, some, List, [], ◌∷◌, Map, is_some, if◌then◌else◌,
}
use duckdb_paimon.Prelude.Int.{pos, negsuc}
use duckdb_paimon.Sql.{LogicalType, Result, ok, throw_if, permission_exception, ◌>>=◌, ◌>>◌}
use duckdb_paimon.Catalog.SchemaEntry.{CreateTableInfo, partition_columns}
use duckdb_paimon.Catalog.Options.{Environment, CatalogKeys, is_s3, is_oss, get_paimon_options}
use duckdb_paimon.Scan.Bind.{
  ScanSchema, ScanCatalog, ScanPlatform, DataPart, keys_of, or_raise, create_paimon_catalog,
}
use duckdb_paimon.DistributedInsert.Operator.{SchemaRef, PlannedTarget, PaimonInsert}

-- DuckDB's access modes.
pub data AccessMode : Type 0 where
  undefined_mode automatic read_only read_write : AccessMode

abbrev pub is_read_only : AccessMode → Bool
is_read_only AccessMode.read_only = true
is_read_only _ = false

-- `PaimonCatalog` as it is attached, with the database's own mark.
pub record AttachedCatalog : Type 0 where
  pub path : String
  pub access_mode : AccessMode
  pub attached_options : Map String
  pub paimon_catalog : ScanCatalog
  pub database_read_only : Bool

abbrev pub schema_ref : AttachedCatalog → String → SchemaRef
schema_ref a name = record { name = name; read_only = is_read_only a.access_mode }

-- The fields of a new operator behind those that its constructor sets.
abbrev pub no_target : PlannedTarget
no_target = record {
  operation_id = [];
  table_uuid = "";
  table_path = "";
  schema_fingerprint = [];
  table_schema_json = [];
  input_types = [];
  input_names = [];
  primary_keys = [];
  table_options = [];
  portable_options = [];
  null_part_name = "";
  schema_id = negsuc 0;
  commit_identifier = pos 0;
  append_only = false;
  has_snapshot = false;
  snapshot_id = pos 0;
}

unfoldable pub new_insert :
    SchemaRef
    → Option CreateTableInfo
    → String
    → Map String
    → List String
    → List (List LogicalType)
    → Bool
    → PaimonInsert
new_insert schema info table_name paimon_options part_keys children has_context = record {
  schema = some schema;
  info = info;
  database_name = schema.name;
  table_name = table_name;
  paimon_options = paimon_options;
  part_keys = part_keys;
  children = children;
  plan = record { extension_name = ""; operator_name = ""; worker_bind_data = [] };
  has_context = has_context;
  target = no_target;
  target_initialized = false;
  worker_plan_selected = false;
  prepare_started = false;
  target_prepared = false;
  finalize_started = false;
}

abbrev data_part_of : Option ScanSchema → Option DataPart
data_part_of none = none
data_part_of (some schema) = schema.data_part

-- The only child, if there is a plan.
abbrev children_of : Option (List LogicalType) → List (List LogicalType)
children_of none = []
children_of (some types) = types ∷ []

abbrev write_refused : String
write_refused = "Cannot write to a read-only Paimon catalog"

module _ (platform : ScanPlatform) (env : Environment) (keys : CatalogKeys) where
  -- The mode that `Attach` sets: an object store is attached read-only.
  unfoldable pub attach_mode : String → AccessMode → AccessMode
  attach_mode path mode =
      if is_s3 env keys path || is_oss env keys path then AccessMode.read_only else mode

  unfoldable pub attach : String → Map String → AccessMode → Result AttachedCatalog
  attach path options mode = do
    catalog ← create_paimon_catalog platform env keys path options
    ok (record {
      path = path;
      access_mode = attach_mode path mode;
      attached_options = options;
      paimon_catalog = catalog;
      database_read_only = is_read_only (attach_mode path mode);
    })

  -- `PlanCreateTableAs` of a statement with a plan of these types.
  unfoldable pub plan_create_table_as :
      AttachedCatalog → String → CreateTableInfo → List LogicalType → Result PaimonInsert
  plan_create_table_as a schema info types = do
    throw_if (is_read_only a.access_mode) (permission_exception write_refused)
    paimon_options ← get_paimon_options env keys a.path a.attached_options
    part_keys ← partition_columns info.partition_keys
    ok (
        new_insert (schema_ref a schema) (some info) info.table paimon_options part_keys
          (types ∷ []) true)

  -- `PlanInsert` of a table; the types are those of the plan, with the defaults that DuckDB projects in.
  unfoldable pub plan_insert :
      AttachedCatalog → String → String → Option (List LogicalType) → Result PaimonInsert
  plan_insert a schema table plan = do
    throw_if (is_read_only a.access_mode) (permission_exception write_refused)
    paimon_options ← get_paimon_options env keys a.path a.attached_options
    answer ← or_raise (a.paimon_catalog.load_table_schema schema table)
    ok (
        new_insert (schema_ref a schema) none table paimon_options (keys_of (data_part_of answer))
          (children_of plan) (is_some plan))
