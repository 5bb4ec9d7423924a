-- ===== src/DistributedInsert/Planning.antt =====
-- How the operator becomes a distributed write: `SetDistributedWriteContext`, `InitializeDistributedWrite`,
-- `GetExtensionWriteTaskProvider` and `BuildPipelines`. The fields that were set before an exception stay set.
use duckdb_paimon.Prelude.{
  Bool, true, false, not, String, Option, none, some, List, [], ◌∷◌, eqb, is_empty, length,
  same_list, Map,
}
use duckdb_paimon.Prelude.Int.{pos}
use duckdb_paimon.Sql.{
  LogicalType, Result, ok, throw, invalid_input, internal_exception, not_implemented,
}
use duckdb_paimon.Paimon.{Outcome, value, status}
use duckdb_paimon.TablePath.{Text}
use duckdb_paimon.Catalog.Backend.{Backend}
use duckdb_paimon.Catalog.SchemaEntry.{CreateTableInfo, primary_keys, table_options}
use duckdb_paimon.DistributedInsert.Actions.{Action, pure, reads, raise_if, ◌>>=◌, ◌>>◌}
use duckdb_paimon.DistributedInsert.Identities.{create_commit_identifier}
use duckdb_paimon.DistributedInsert.Transport.{
  WriteTransport, write_operator_name, serialize_transport, get_portable_write_options,
}
use duckdb_paimon.DistributedInsert.Target.{TargetState, null_part_name_of, same_names}
use duckdb_paimon.DistributedInsert.Operator.{
  SchemaRef, PlannedTarget, PaimonInsert, expected_kind, validate_ctas,
}
use duckdb_paimon.DistributedInsert.Coordinator.{
  CoordinatorState, Outside, on_store, set_insert, load_current,
}

-- What is known when a write is planned: a new random UUID as text, `GetFullName()` of the table, and the
-- bytes that the serializer makes of a planned schema.
pub record Planner : Type 0 where
  pub new_uuid : Text
  pub full_name : String → String → String
  pub schema_bytes : List String → List LogicalType → List String → List String → Map String → Text

-- The transport of an operator's target.
unfoldable pub planned_transport : PaimonInsert → WriteTransport
planned_transport i = record {
  write_kind = expected_kind i.info;
  operation_id = i.target.operation_id;
  database_name = i.database_name;
  table_name = i.table_name;
  table_uuid = i.target.table_uuid;
  table_path = i.target.table_path;
  schema_fingerprint = i.target.schema_fingerprint;
  schema_id = i.target.schema_id;
  append_only = i.target.append_only;
  has_snapshot = i.target.has_snapshot;
  snapshot_id = i.target.snapshot_id;
  commit_identifier = i.target.commit_identifier;
  input_types = i.target.input_types;
  input_names = i.target.input_names;
  part_keys = i.part_keys;
  null_part_name = i.target.null_part_name;
  portable_options = i.target.portable_options;
}

unfoldable pub location : Outcome String → Result String
location (value path) = ok path
location (status e) = throw (
    not_implemented
      "Distributed Paimon CTAS requires a catalog that resolves the target location before creation")

abbrev set_target : (PlannedTarget → PlannedTarget) → PaimonInsert → PaimonInsert
set_target f i = record i { target = f i.target }

-- The fields of an INSERT's target, from the table as it is.
unfoldable pub with_current :
    (Text → Text) → List LogicalType → TargetState → PlannedTarget → PlannedTarget
with_current md5_hex input_types current t = record t {
  table_uuid = current.table_uuid;
  table_path = current.table_path;
  table_schema_json = current.table_schema_json;
  schema_fingerprint = md5_hex current.table_schema_json;
  schema_id = current.schema_id;
  append_only = current.append_only;
  has_snapshot = current.has_snapshot;
  snapshot_id = current.snapshot_id;
  input_types = input_types;
  input_names = current.field_names;
  primary_keys = current.primary_keys;
  table_options = current.table_options;
  null_part_name = current.null_part_name;
}

-- `SetDistributedWriteContext`
unfoldable pub set_context :
    {b : Backend} {Message : Type 0} → Action (CoordinatorState b Message) (Unit {0})
set_context = do
  known ← reads (λ s. ok s.insert.has_context)
  raise_if known (internal_exception "Distributed Paimon write context was set more than once")
  set_insert (λ i. record i { has_context = true })

module _ {b : Backend} {Message : Type 0} (o : Outside b Message) (planner : Planner) where
  abbrev set_planned :
      (PlannedTarget → PlannedTarget) → Action (CoordinatorState b Message) (Unit {0})
  set_planned f = set_insert (set_target f)

  -- The target of a CREATE TABLE AS, which is not there.
  unfoldable pub plan_ctas :
      PaimonInsert
      → List LogicalType
      → CreateTableInfo
      → Action (CoordinatorState b Message) (Unit {0})
  plan_ctas insert input_types info = do
    set_planned (λ t. record t { input_names = info.column_names; input_types = info.column_types })
    raise_if (not (same_list o.platform.same_type input_types info.column_types))
        (invalid_input "Paimon CTAS input schema does not match its create-table columns")
    keys ← reads (λ s. primary_keys info.column_names info.constraints)
    set_planned (λ t. record t { primary_keys = keys })
    options ← reads (λ s. table_options [] info.options)
    set_planned (λ t. record t { table_options = options; append_only = is_empty keys })
    reads (λ s. validate_ctas (some info) keys)
    set_planned
        (λ t. record t { table_uuid = planner.full_name insert.database_name insert.table_name })
    path ← on_store (λ st.
        let (answer, next) = o.catalog.table_location st insert.database_name insert.table_name in
        (location answer, next))
    set_planned (λ t. record t {
      table_path = path;
      schema_id = pos 0;
      has_snapshot = false;
      snapshot_id = pos 0;
      null_part_name = null_part_name_of o.keys.partition_default_name options;
      schema_fingerprint =
          o.platform.md5_hex (
            planner.schema_bytes info.column_names info.column_types insert.part_keys keys options);
    })

  -- The target of an INSERT, as the table is.
  unfoldable pub plan_insert :
      PaimonInsert → List LogicalType → Action (CoordinatorState b Message) (Unit {0})
  plan_insert insert input_types = do
    current ← load_current o insert
    raise_if (not (same_list o.platform.same_type input_types current.field_types))
        (invalid_input "Paimon INSERT input schema does not match the current target table types")
    raise_if (not (same_names insert.part_keys current.part_keys))
        (internal_exception "Paimon INSERT partition keys do not match the loaded target schema")
    set_planned (with_current o.platform.md5_hex input_types current)

  unfoldable pub plan_target :
      PaimonInsert
      → List LogicalType
      → Option CreateTableInfo
      → Action (CoordinatorState b Message) (Unit {0})
  plan_target insert input_types none = plan_insert insert input_types
  plan_target insert input_types (some info) = plan_ctas insert input_types info

  abbrev has_schema : Option SchemaRef → Bool
  has_schema none = false
  has_schema (some schema) = true

  -- `InitializeDistributedWrite`
  unfoldable pub initialize_distributed_write :
      List LogicalType → Action (CoordinatorState b Message) (Unit {0})
  initialize_distributed_write input_types = do
    insert ← reads (λ s. ok s.insert)
    raise_if insert.target_initialized
        (internal_exception "Distributed Paimon write target was initialized more than once")
    raise_if (not (has_schema insert.schema))
        (internal_exception "Distributed Paimon write requires a coordinator schema entry")
    set_planned (λ t. record t {
      operation_id = planner.new_uuid;
      commit_identifier = pos (create_commit_identifier o.platform planner.new_uuid);
      portable_options = get_portable_write_options o.keys.catalog.table insert.paimon_options;
    })
    plan_target insert input_types insert.info
    t ← reads (λ s. ok (planned_transport s.insert))
    name ← reads (λ s. write_operator_name t.write_kind)
    set_insert
        (λ i. record i { plan = record i.plan { extension_name = "paimon"; operator_name = name } })
    bytes ← reads (λ s. serialize_transport o.platform o.keys.catalog.table o.codec t)
    set_insert (λ i. record i {
      plan = record i.plan { worker_bind_data = bytes };
      target_initialized = true;
    })

  -- `GetExtensionWriteTaskProvider`, by the children and by whether the target was initialized
  unfoldable pub provide :
      List (List LogicalType) → Bool → Action (CoordinatorState b Message) (Unit {0})
  provide (types ∷ []) false = initialize_distributed_write types
  provide (types ∷ []) true = pure tt
  provide _ initialized =
      raise_if true (invalid_input "Distributed Paimon write requires exactly one physical child")

  unfoldable pub select_worker_plan :
      PaimonInsert → Bool → Action (CoordinatorState b Message) (Unit {0})
  select_worker_plan insert true = pure tt
  select_worker_plan insert false = do
    raise_if (not (eqb (length insert.children) 1))
        (invalid_input "Distributed Paimon write requires exactly one physical child")
    raise_if (not insert.has_context)
        (invalid_input "Distributed Paimon write has no coordinator context")
    provide insert.children insert.target_initialized
    set_insert (λ i. record i { worker_plan_selected = true })

  unfoldable pub get_task_provider : Action (CoordinatorState b Message) (Unit {0})
  get_task_provider = do
    insert ← reads (λ s. ok s.insert)
    select_worker_plan insert insert.worker_plan_selected

-- `BuildPipelines`, up to the operator's own pipelines
unfoldable pub build_pipelines :
    {b : Backend} {Message : Type 0} → Action (CoordinatorState b Message) (Unit {0})
build_pipelines = do
  selected ← reads (λ s. ok s.insert.worker_plan_selected)
  raise_if selected (
      invalid_input
        "A distributed Paimon write worker plan cannot execute as a native coordinator operator")
