-- ===== src/DistributedScan/Transport.antt =====
-- The bind data in transit: `GetPortableOptions`, `ValidateTransport`, the serialization of a bind,
-- and `PaimonCreateDistributedWorkerBind`. The serializer is that of Wire.
use duckdb_paimon.Prelude.{
  ℕ, Bool, true, false, not, ◌&&◌, ◌||◌, String, ◌==◌, none, some, List, [], ◌∷◌, eqb, is_empty,
  is_some, elem, length, Map, lookup, assign, emplace, if◌then◌else◌,
}
use duckdb_paimon.Prelude.Int.{ℤ, pos, ltb_ℤ}
use duckdb_paimon.Sql.{
  LogicalType, LogicalTypeId, serialization, invalid_input, internal_exception, Result, ok, throw,
  throw_if, ◌>>=◌, ◌>>◌,
}
use duckdb_paimon.Wire.{Kind, Wire}
use duckdb_paimon.TablePath.{Text, PaimonTablePath}
use duckdb_paimon.Scan.{ScanBindData, ScanPhase}

-- The keys of paimon::Options that the code names.
pub record OptionKeys : Type 0 where
  pub manifest_format : String
  pub file_format : String
  pub scan_snapshot_id : String
  pub scan_timestamp_millis : String

pub record BindTransport : Type 0 where
  pub path : PaimonTablePath
  pub table_data_path : String
  pub table_schema_json : String
  pub schema_id : ℤ
  pub append_only : Bool
  pub return_types : List LogicalType
  pub return_names : List String
  pub part_keys : List String
  pub portable_options : Map String
  pub split_set_id : Text

pub data BindKind : Type 0 where
  coordinator worker : BindKind

-- The byte that is written for a kind, and the kind of a byte.
abbrev pub kind_code : BindKind → ℕ
kind_code BindKind.coordinator = 1
kind_code BindKind.worker = 2

unfoldable pub kind_of : ℕ → Result BindKind
kind_of code =
    if eqb code 1
    then ok BindKind.coordinator
    else if eqb code 2
    then ok BindKind.worker
    else throw (serialization "Distributed Paimon scan bind has invalid kind")

abbrev is_invalid : LogicalTypeId → Bool
is_invalid LogicalTypeId.invalid = true
is_invalid _ = false

-- The loop over the output columns; the lengths are equal.
unfoldable pub invalid_column : List LogicalType → List String → Bool
invalid_column [] names = false
invalid_column (t ∷ types) [] = false
invalid_column (t ∷ types) (name ∷ names) =
    is_invalid t.id || name == "" || invalid_column types names

-- The loop over the partition keys, with the keys seen so far.
unfoldable pub invalid_part_key : List String → List String → List String → Bool
invalid_part_key outputs seen [] = false
invalid_part_key outputs seen (key ∷ keys) =
    key == ""
    || not (elem key outputs)
    || elem key seen
    || invalid_part_key outputs (key ∷ seen) keys

-- The switch of `PaimonDistributedScanSerialize` on the phase.
unfoldable pub bind_kind : ScanPhase → Result BindKind
bind_kind ScanPhase.coordinator = ok BindKind.coordinator
bind_kind ScanPhase.distributed_coordinator = ok BindKind.coordinator
bind_kind ScanPhase.worker_template = ok BindKind.worker
bind_kind ScanPhase.worker_assigned =
    throw (serialization "Assigned distributed Paimon scan splits cannot enter a worker template")

abbrev pub phase_of : BindKind → ScanPhase
phase_of BindKind.coordinator = ScanPhase.distributed_coordinator
phase_of BindKind.worker = ScanPhase.worker_template

-- The loop over the portable options; a map has each key once, so the order is of no account.
unfoldable pub overwrite_each : Map String → Map String → Map String
overwrite_each [] options = options
overwrite_each ((k, v) ∷ rest) options = assign k v (overwrite_each rest options)

module _ (wire : Wire) where
  -- `SerializeTransport`, in front of what is written after it.
  unfoldable pub write_transport : BindTransport → Text → Text
  write_transport t rest = wire.put Kind.text 1 t.path.warehouse (
      wire.put Kind.text 2 t.path.dbname (
        wire.put Kind.text 3 t.path.tablename (
          wire.put Kind.string 4 t.table_data_path (
            wire.put Kind.string 5 t.table_schema_json (
              wire.put Kind.integer 6 t.schema_id (
                wire.put Kind.boolean 7 t.append_only (
                  wire.put Kind.types 8 t.return_types (
                    wire.put Kind.names 9 t.return_names (
                      wire.put Kind.options 10 t.portable_options (
                        wire.put Kind.text 11 t.split_set_id
                          (wire.put Kind.names 12 t.part_keys rest)))))))))))

  -- `DeserializeTransport`, with the bytes behind it.
  unfoldable pub read_transport : Text → Result (BindTransport × Text)
  read_transport bytes = do
    warehouse ← wire.get Kind.text 1 bytes
    dbname ← wire.get Kind.text 2 warehouse.1
    tablename ← wire.get Kind.text 3 dbname.1
    table_data_path ← wire.get Kind.string 4 tablename.1
    table_schema_json ← wire.get Kind.string 5 table_data_path.1
    schema_id ← wire.get Kind.integer 6 table_schema_json.1
    append_only ← wire.get Kind.boolean 7 schema_id.1
    return_types ← wire.get Kind.types 8 append_only.1
    return_names ← wire.get Kind.names 9 return_types.1
    portable_options ← wire.get Kind.options 10 return_names.1
    split_set_id ← wire.get Kind.text 11 portable_options.1
    part_keys ← wire.get Kind.names 12 split_set_id.1
    ok (
      record {
        path = record { warehouse = warehouse.0; dbname = dbname.0; tablename = tablename.0 };
        table_data_path = table_data_path.0;
        table_schema_json = table_schema_json.0;
        schema_id = schema_id.0;
        append_only = append_only.0;
        return_types = return_types.0;
        return_names = return_names.0;
        part_keys = part_keys.0;
        portable_options = portable_options.0;
        split_set_id = split_set_id.0;
      },
      part_keys.1,
    )

  -- The kind's byte, then the transport as an object.
  unfoldable pub write_bind : ℕ → BindTransport → Text → Text
  write_bind code t rest =
      wire.put Kind.index 1 code (wire.open_object 2 (write_transport t (wire.close rest)))

module _ {Predicate Split : Type 0} where
  -- A default-constructed bind with the transport's fields.
  abbrev pub received : BindKind → BindTransport → Map String → ScanBindData Predicate Split
  received kind t options = record {
    path = t.path;
    table_data_path = t.table_data_path;
    paimon_options = options;
    arrow_names = [];
    arrow_types = [];
    predicates = none;
    part_keys = t.part_keys;
    part_filters = [];
    debug_expected_splits = none;
    table_schema_json = t.table_schema_json;
    distributed = record {
      phase = phase_of kind;
      split_set_id = t.split_set_id;
      has_snapshot = false;
      snapshot_id = pos 0;
      schema_id = t.schema_id;
      append_only = t.append_only;
      return_types = t.return_types;
      return_names = t.return_names;
      portable_options = t.portable_options;
      assigned_splits = [];
    };
  }

  -- `PaimonCreateDistributedWorkerBind`
  unfoldable pub create_worker_bind :
      ScanBindData Predicate Split → Result (ScanBindData Predicate Split)
  create_worker_bind source = elim source.distributed.phase [
    | ScanPhase.distributed_coordinator ↦
        if is_empty source.distributed.split_set_id
        then throw (invalid_input "Distributed Paimon worker bind requires a coordinator bind")
        else ok (
            received BindKind.worker
              (record {
                path = source.path;
                table_data_path = source.table_data_path;
                table_schema_json = source.table_schema_json;
                schema_id = source.distributed.schema_id;
                append_only = source.distributed.append_only;
                return_types = source.distributed.return_types;
                return_names = source.distributed.return_names;
                part_keys = source.part_keys;
                portable_options = source.distributed.portable_options;
                split_set_id = source.distributed.split_set_id;
              })
              source.distributed.portable_options)
    | _ ↦ throw (invalid_input "Distributed Paimon worker bind requires a coordinator bind")
  ]

  -- `InitializePaimonDistributedScanBind` with a new random identifier.
  unfoldable pub initialize_distributed :
      Text → ScanBindData Predicate Split → Result (ScanBindData Predicate Split)
  initialize_distributed uuid bind =
      if is_empty bind.distributed.split_set_id
      then ok (record bind { distributed = record bind.distributed { split_set_id = uuid } })
      else throw
          (internal_exception "Distributed Paimon scan bind already has a split-set identity")

module _ (keys : OptionKeys) where
  unfoldable pub is_portable_option : String → Bool
  is_portable_option key =
      key == keys.manifest_format
      || key == keys.file_format
      || key == keys.scan_snapshot_id
      || key == keys.scan_timestamp_millis

  abbrev copy_option : Map String → String → Map String → Map String
  copy_option options key result = elim (lookup key options) [
    | none ↦ result
    | some v ↦ emplace key v result
  ]

  unfoldable pub get_portable_options : Map String → Map String
  get_portable_options options = copy_option options keys.scan_timestamp_millis (
      copy_option options keys.scan_snapshot_id
        (copy_option options keys.file_format (copy_option options keys.manifest_format [])))

  unfoldable pub invalid_option : Map String → Bool
  invalid_option [] = false
  invalid_option ((key, v) ∷ options) =
      not (is_portable_option key) || v == "" || invalid_option options

  unfoldable pub incomplete : BindTransport → Bool
  incomplete t =
      is_empty t.path.dbname
      || is_empty t.path.tablename
      || t.table_data_path == ""
      || t.table_schema_json == ""
      || ltb_ℤ t.schema_id (pos 0)
      || is_empty t.return_types
      || not (eqb (length t.return_types) (length t.return_names))
      || is_empty t.split_set_id

  unfoldable pub validate_transport : BindTransport → Result (Unit {0})
  validate_transport t = do
    throw_if (incomplete t)
        (serialization "Distributed Paimon scan bind has incomplete portable state")
    throw_if (invalid_column t.return_types t.return_names)
        (serialization "Distributed Paimon scan bind contains an invalid output schema")
    throw_if (invalid_part_key t.return_names [] t.part_keys)
        (serialization "Distributed Paimon scan bind contains an invalid partition key")
    throw_if (invalid_option t.portable_options)
        (serialization "Distributed Paimon scan bind contains non-portable option")
    throw_if
        (is_some (lookup keys.scan_snapshot_id t.portable_options)
          && is_some (lookup keys.scan_timestamp_millis t.portable_options))
        (serialization "Distributed Paimon scan bind contains conflicting snapshot options")

  module _ {Predicate Split : Type 0} where
    unfoldable pub transport_of : ScanBindData Predicate Split → BindTransport
    transport_of bind = record {
      path = bind.path;
      table_data_path = bind.table_data_path;
      table_schema_json = bind.table_schema_json;
      schema_id = bind.distributed.schema_id;
      append_only = bind.distributed.append_only;
      return_types = bind.distributed.return_types;
      return_names = bind.distributed.return_names;
      part_keys = bind.part_keys;
      portable_options =
          if is_empty bind.distributed.portable_options
          then get_portable_options bind.paimon_options
          else bind.distributed.portable_options;
      split_set_id = bind.distributed.split_set_id;
    }

    -- `GetTransportBase`
    unfoldable pub get_transport_base : ScanBindData Predicate Split → Result BindTransport
    get_transport_base bind = do validate_transport (transport_of bind); ok (transport_of bind)

    -- What follows the kind of a received bind; `local_options` is `GetPaimonOptions` of the data path.
    unfoldable pub accept_bind :
        (String → Result (Map String))
        → BindKind
        → BindTransport
        → Result (ScanBindData Predicate Split)
    accept_bind local_options kind t = do
      validate_transport t
      options ← local_options t.table_data_path
      ok (received kind t (overwrite_each t.portable_options options))

    module _ (wire : Wire) where
      -- `PaimonDistributedScanSerialize` in front of what is written after it.
      unfoldable pub serialize_bind : ScanBindData Predicate Split → Text → Result Text
      serialize_bind bind rest = do
        kind ← bind_kind bind.distributed.phase
        transport ← get_transport_base bind
        validate_transport transport
        ok (write_bind wire (kind_code kind) transport rest)

      -- `PaimonDistributedScanDeserialize`
      unfoldable pub deserialize_bind :
          (String → Result (Map String)) → Text → Result (ScanBindData Predicate Split)
      deserialize_bind local_options bytes = do
        code ← wire.get Kind.index 1 bytes
        kind ← kind_of code.0
        object ← wire.enter_object 2 code.1
        t ← read_transport wire object
        rest ← wire.leave t.1
        accept_bind local_options kind t.0
