-- ===== src/DistributedInsert/Operator.antt =====
-- The operator of a distributed write, the fields of `PhysicalPaimonInsert` that its methods read, and the
-- checks on them that have no effect.
use duckdb_paimon.Prelude.{
  Bool, true, false, not, ◌&&◌, ◌||◌, String, ◌==◌, Option, none, some, List, [], ◌∷◌, eqb,
  is_empty, same_list, same_bool, Map, lookup, if◌then◌else◌,
}
use duckdb_paimon.Prelude.Int.{ℤ, eqb_ℤ}
use duckdb_paimon.Sql.{
  LogicalType, Result, ok, throw, throw_if, invalid_input, internal_exception, not_implemented,
  permission_exception, ◌>>=◌, ◌>>◌,
}
use duckdb_paimon.TablePath.{Text, text_eq}
use duckdb_paimon.Catalog.SchemaEntry.{OnConflict, CreateTableInfo}
use duckdb_paimon.Wire.{Wire}
use duckdb_paimon.DistributedInsert.Identities.{Platform}
use duckdb_paimon.DistributedInsert.Transport.{
  WriteKind, insert_kind, ctas_kind, kind_byte, WriteTransport, deserialize_transport,
}
use duckdb_paimon.DistributedInsert.Tasks.{WriteKeys}
use duckdb_paimon.DistributedInsert.Target.{TargetState, same_names}

-- The schema entry: its name, and whether the access mode of its catalog is READ_ONLY.
pub record SchemaRef : Type 0 where
  pub name : String
  pub read_only : Bool

-- The fields that are set once the target is known, without their prefix `distributed_`.
pub record PlannedTarget : Type 0 where
  pub operation_id : Text
  pub table_uuid : String
  pub table_path : String
  pub schema_fingerprint : Text
  pub table_schema_json : Text
  pub input_types : List LogicalType
  pub input_names : List String
  pub primary_keys : List String
  pub table_options : Map String
  pub portable_options : Map String
  pub null_part_name : String
  pub schema_id : ℤ
  pub commit_identifier : ℤ
  pub append_only : Bool
  pub has_snapshot : Bool
  pub snapshot_id : ℤ

-- DistributedExtensionWritePlan
pub record WritePlan : Type 0 where
  pub extension_name : String
  pub operator_name : String
  pub worker_bind_data : Text

-- `PhysicalPaimonInsert`; `children` are the types of its children.
pub record PaimonInsert : Type 0 where
  pub schema : Option SchemaRef
  pub info : Option CreateTableInfo
  pub database_name : String
  pub table_name : String
  pub paimon_options : Map String
  pub part_keys : List String
  pub children : List (List LogicalType)
  pub plan : WritePlan
  pub has_context : Bool
  pub target : PlannedTarget
  pub target_initialized : Bool
  pub worker_plan_selected : Bool
  pub prepare_started : Bool
  pub target_prepared : Bool
  pub finalize_started : Bool

abbrev pub expected_kind : Option CreateTableInfo → WriteKind
expected_kind none = insert_kind
expected_kind (some info) = ctas_kind

abbrev pub expected_operator : Option CreateTableInfo → String
expected_operator none = "insert"
expected_operator (some info) = "ctas"

-- Every entry of a map has its value in the other.
unfoldable pub included : Map String → Map String → Bool
included [] other = true
included ((key, text) ∷ entries) other =
    (elim (lookup key other) [ none ↦ false | some v ↦ v == text ]) && included entries other

-- `==` of maps.
unfoldable pub same_map : Map String → Map String → Bool
same_map m n = included m n && included n m

abbrev pub is_error_on_conflict : OnConflict → Bool
is_error_on_conflict OnConflict.error_on_conflict = true
is_error_on_conflict _ = false

-- `ValidateCTASDefinition`
unfoldable pub validate_ctas : Option CreateTableInfo → List String → Result (Unit {0})
validate_ctas none primary_keys =
    throw (internal_exception "Distributed Paimon CTAS has no create-table information")
validate_ctas (some info) primary_keys = do
  throw_if (not (is_error_on_conflict info.on_conflict)) (
      not_implemented
        "Distributed Paimon CTAS requires CREATE TABLE with error-on-conflict semantics")
  throw_if (not (is_empty primary_keys))
      (not_implemented "Distributed Paimon CTAS supports append-only tables")
  ok tt

-- `GetCoordinatorCatalog`, on the schema entry
unfoldable pub coordinator_catalog : Option SchemaRef → Result SchemaRef
coordinator_catalog none =
    throw (invalid_input "Distributed Paimon write has no coordinator schema entry")
coordinator_catalog (some schema) =
    if schema.read_only
    then throw (permission_exception "Cannot write to a read-only Paimon catalog")
    else ok schema

-- The types of the only child.
unfoldable pub only_child_differs :
    (LogicalType → LogicalType → Bool) → List (List LogicalType) → List LogicalType → Bool
only_child_differs same (types ∷ []) input_types = not (same_list same types input_types)
only_child_differs same _ input_types = true

module _ (p : Platform) where
  unfoldable pub transport_differs : PaimonInsert → WriteTransport → Bool
  transport_differs insert t =
      not (eqb (kind_byte t.write_kind) (kind_byte (expected_kind insert.info)))
      || not (text_eq t.operation_id insert.target.operation_id)
      || not (t.database_name == insert.database_name)
      || not (t.table_name == insert.table_name)
      || not (t.table_uuid == insert.target.table_uuid)
      || not (t.table_path == insert.target.table_path)
      || not (text_eq t.schema_fingerprint insert.target.schema_fingerprint)
      || not (eqb_ℤ t.schema_id insert.target.schema_id)
      || not (same_bool t.append_only insert.target.append_only)
      || not (same_bool t.has_snapshot insert.target.has_snapshot)
      || not (eqb_ℤ t.snapshot_id insert.target.snapshot_id)
      || not (eqb_ℤ t.commit_identifier insert.target.commit_identifier)
      || not (same_list p.same_type t.input_types insert.target.input_types)
      || not (same_names t.input_names insert.target.input_names)
      || not (same_names t.part_keys insert.part_keys)
      || not (t.null_part_name == insert.target.null_part_name)
      || not (same_map t.portable_options insert.target.portable_options)

  -- The comparison of the schema in `ValidateTargetBaseline`, but for the JSON text of the schema, which
  -- `CapturePreparedCTASTarget` does not compare.
  unfoldable pub schema_differs : PaimonInsert → TargetState → Bool
  schema_differs insert current =
      not (eqb_ℤ current.schema_id insert.target.schema_id)
      || not (same_bool current.append_only insert.target.append_only)
      || not (same_names current.field_names insert.target.input_names)
      || not (same_list p.same_type current.field_types insert.target.input_types)
      || not (same_names current.part_keys insert.part_keys)
      || not (same_names current.primary_keys insert.target.primary_keys)
      || not (same_map current.table_options insert.target.table_options)
      || not (current.null_part_name == insert.target.null_part_name)

  unfoldable pub snapshot_differs : PaimonInsert → TargetState → Bool
  snapshot_differs insert current =
      not (same_bool current.has_snapshot insert.target.has_snapshot)
      || not (eqb_ℤ current.snapshot_id insert.target.snapshot_id)

  module _ (codec : Wire) (keys : WriteKeys) where
    -- `GetCoordinatorTransport`
    unfoldable pub coordinator_transport : PaimonInsert → Result WriteTransport
    coordinator_transport insert = do
      t ← deserialize_transport p keys.catalog.table codec insert.plan.worker_bind_data
      throw_if (transport_differs insert t) (
          invalid_input
            "Distributed Paimon write worker bind does not match its coordinator target")
      ok t

    -- `ValidateCoordinatorShape`
    unfoldable pub validate_coordinator_shape : PaimonInsert → Result (Unit {0})
    validate_coordinator_shape insert = do
      throw_if (not insert.target.append_only)
          (not_implemented "Distributed Paimon writes support append-only tables")
      throw_if
          (not insert.target_initialized
            || not insert.worker_plan_selected
            || not (insert.plan.extension_name == "paimon")
            || not (insert.plan.operator_name == expected_operator insert.info)
            || is_empty insert.plan.worker_bind_data
            || only_child_differs p.same_type insert.children insert.target.input_types)
          (invalid_input "Distributed Paimon write target or worker plan was not initialized")
      t ← coordinator_transport insert
      ok tt
