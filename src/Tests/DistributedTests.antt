-- ===== src/Tests/DistributedTests.antt =====
-- The theorems on the distributed scan at concrete inputs.
use duckdb_paimon.Prelude.{
  ℕ, ◌≡◌, refl, true, false, String, [], ◌∷◌, some, none, Map, Option, get_elem?, arith, is_some,
  lookup, emplace, if◌then◌else◌, ◌<◌,
}
use duckdb_paimon.Prelude.Int.{pos}
use duckdb_paimon.Sql.{Result, ok}
use duckdb_paimon.TablePath.{Text}
use duckdb_paimon.Scan.{ScanBindData, DistributedScanState, ScanPhase}
use duckdb_paimon.DistributedScan.SplitIds.{to_string, to_string_canonical}
use duckdb_paimon.DistributedScan.Estimates.{
  SplitKind, add_files, add_valid, try_add_estimate, split_estimates, split_estimates-lt,
  index_maximum,
}
use duckdb_paimon.DistributedScan.Envelope.{
  SplitEnvelope, serialize_split_envelope, deserialize_split_envelope, canonical_absent,
  IsWellFormed, deserialize-serialize, invalid_state, non_canonical_absent,
}
use duckdb_paimon.DistributedScan.Planning.{
  DistributedScanSplit, Plan, plan_splits, plan_from, plan_split, pack_envelope, planned_envelope,
  optional_index, apply_splits,
}
use duckdb_paimon.DistributedScan.Assignment.{apply_splits-planned}
use duckdb_paimon.DistributedScan.Numbering.{plan_splits-numbered}
use duckdb_paimon.DistributedScan.Transport.{
  OptionKeys, BindTransport, validate_transport, incomplete, invalid_column, invalid_part_key,
  invalid_option, is_portable_option, bind_kind, transport_of, get_transport_base,
  get_portable_options, serialize_bind, deserialize_bind, create_worker_bind, write_bind, BindKind,
}
use duckdb_paimon.DistributedScan.RoundTrip.{
  Carries, deserialize_bind-serialize_bind, serialize_bind-deserialize_bind,
  create_worker_bind-deserialize_bind,
}
use duckdb_paimon.Tests.Sample.{varchar_type}
use duckdb_paimon.Wire.{Kind}
use duckdb_paimon.Tests.SampleWire.{
  wire, wire-IsFaithful, read_under, put_field, get_field, put_types, get_types, put_names,
  get_names, put_options, get_options, code_in, string_in,
}
use duckdb_paimon.Tests.NumberSplits.{numbers, numbers-IsReversible}

abbrev state_in : ScanPhase → DistributedScanState ℕ
state_in phase = record {
  phase = phase;
  split_set_id = b'u' ∷ [];
  has_snapshot = false;
  snapshot_id = pos 0;
  schema_id = pos 2;
  append_only = true;
  return_types = varchar_type ∷ varchar_type ∷ [];
  return_names = "p" ∷ "v" ∷ [];
  portable_options = [];
  assigned_splits = [];
}

abbrev bind_in : ScanPhase → ScanBindData String ℕ
bind_in phase = record {
  path = record { warehouse = b'w' ∷ []; dbname = b'd' ∷ []; tablename = b't' ∷ [] };
  table_data_path = "w/d.db/t";
  paimon_options = ("file.format", "orc") ∷ ("s3.secret", "x") ∷ [];
  arrow_names = "p" ∷ "v" ∷ [];
  arrow_types = varchar_type ∷ varchar_type ∷ [];
  predicates = none;
  part_keys = "p" ∷ [];
  part_filters = [];
  debug_expected_splits = none;
  table_schema_json = "schema";
  distributed = state_in phase;
}

abbrev two_files : SplitKind
two_files = SplitKind.data_split (
    record { file_size = pos 5; row_count = pos 2 }
    ∷ record { file_size = pos 7; row_count = pos 1 }
    ∷ [])

split_estimates-lt_example :
    ((split_estimates two_files true).cardinality < index_maximum)
    × ((split_estimates two_files true).bytes < index_maximum)
split_estimates-lt_example = split_estimates-lt two_files true

abbrev one_envelope : SplitEnvelope
one_envelope =
    planned_envelope wire numbers (state_in ScanPhase.distributed_coordinator) (some (pos 4)) 0 6
      (6 ∷ [])

one_envelope-IsWellFormed : IsWellFormed one_envelope
unfolding planned_envelope split_estimates add_files add_valid try_add_estimate
one_envelope-IsWellFormed = record {
  set_id = refl;
  id = to_string_canonical 0;
  schema = refl;
  snapshot = refl;
  split = refl;
  cardinality = omega arith;
  bytes = omega arith;
}

deserialize-serialize_example :
    (deserialize_split_envelope wire (serialize_split_envelope wire one_envelope)
      ≡ ok (canonical_absent one_envelope))
    × ((payload : Text) (other : SplitEnvelope)
        → deserialize_split_envelope wire payload ≡ ok other
        → (invalid_state other ≡ false) × (non_canonical_absent other ≡ false))
deserialize-serialize_example =
    deserialize-serialize wire one_envelope wire-IsFaithful one_envelope-IsWellFormed

-- The second split of a plan with the snapshot 4.
abbrev second_split : DistributedScanSplit
second_split = record {
  split_id = to_string 1;
  payload = serialize_split_envelope wire (
      planned_envelope wire numbers (state_in ScanPhase.distributed_coordinator) (some (pos 4)) 1 6
        (6 ∷ []));
  estimated_cardinality = some 6;
  estimated_bytes = some 12;
}

second_split_planned :
    plan_split wire numbers (state_in ScanPhase.distributed_coordinator) (some (pos 4)) 1 (some 6)
    ≡ ok second_split
unfolding plan_split pack_envelope planned_envelope optional_index split_estimates add_files
    add_valid try_add_estimate
second_split_planned = refl

-- A plan of two splits with the snapshot 4.
abbrev two_splits : ScanBindData String ℕ → Result (Option (Plan ℕ))
two_splits bind = ok (some (record { snapshot_id = some (pos 4); splits = some 6 ∷ some 6 ∷ [] }))

abbrev first_split : DistributedScanSplit
first_split = record second_split {
  split_id = to_string 0;
  payload = serialize_split_envelope wire one_envelope;
}

two_planned :
    plan_splits wire numbers two_splits (bind_in ScanPhase.distributed_coordinator)
    ≡ ok (first_split ∷ second_split ∷ [])
unfolding plan_splits plan_from plan_split pack_envelope planned_envelope optional_index
    split_estimates add_files add_valid try_add_estimate
two_planned = refl

plan_splits-numbered_example :
    ((i : ℕ) (split : DistributedScanSplit)
      → get_elem? (first_split ∷ second_split ∷ []) i ≡ some split
      → split.split_id ≡ to_string i)
    × ((i j : ℕ) (a b : DistributedScanSplit)
        → get_elem? (first_split ∷ second_split ∷ []) i ≡ some a
        → get_elem? (first_split ∷ second_split ∷ []) j ≡ some b
        → a.split_id ≡ b.split_id
        → i ≡ j)
plan_splits-numbered_example =
    plan_splits-numbered wire numbers two_splits (bind_in ScanPhase.distributed_coordinator)
      (first_split ∷ second_split ∷ []) two_planned

apply_splits-planned_example :
    (bind' : ScanBindData String ℕ) × (apply_splits wire numbers
        (bind_in ScanPhase.worker_template)
        (second_split ∷ [])
      ≡ ok bind')
    × (bind'.distributed.assigned_splits ≡ 6 ∷ [])
    × (bind'.distributed.phase ≡ ScanPhase.worker_assigned)
    × (bind'.distributed.has_snapshot ≡ true)
    × (bind'.distributed.snapshot_id ≡ pos 4)
apply_splits-planned_example =
    apply_splits-planned wire numbers (state_in ScanPhase.distributed_coordinator)
      (bind_in ScanPhase.worker_template) (pos 4) ((1, 6, second_split) ∷ []) wire-IsFaithful
      numbers-IsReversible refl refl refl refl refl refl (refl, tt) (second_split_planned, tt)

abbrev keys : OptionKeys
keys = record {
  manifest_format = "manifest.format";
  file_format = "file.format";
  scan_snapshot_id = "scan.snapshot-id";
  scan_timestamp_millis = "scan.timestamp-millis";
}

abbrev transport : BindTransport
transport = record {
  path = record { warehouse = b'w' ∷ []; dbname = b'd' ∷ []; tablename = b't' ∷ [] };
  table_data_path = "w/d.db/t";
  table_schema_json = "schema";
  schema_id = pos 2;
  append_only = true;
  return_types = varchar_type ∷ varchar_type ∷ [];
  return_names = "p" ∷ "v" ∷ [];
  part_keys = "p" ∷ [];
  portable_options = ("file.format", "orc") ∷ [];
  split_set_id = b'u' ∷ [];
}

transport-Carries : Carries wire transport
unfolding put_field get_field put_types get_types put_names get_names put_options get_options
    code_in string_in
transport-Carries = record {
  faithful = wire-IsFaithful;
  table_data_path = read_under Kind.string transport.table_data_path (λ rest. refl);
  table_schema_json = read_under Kind.string transport.table_schema_json (λ rest. refl);
  return_types = read_under Kind.types transport.return_types (λ rest. refl);
  return_names = read_under Kind.names transport.return_names (λ rest. refl);
  part_keys = read_under Kind.names transport.part_keys (λ rest. refl);
  portable_options = read_under Kind.options transport.portable_options (λ rest. refl);
}

-- The bytes of a bind that is sent as a coordinator, with nothing behind them.
abbrev sent : Text
sent = write_bind wire 1 transport []

transport_written : serialize_bind keys wire (bind_in ScanPhase.coordinator) [] ≡ ok sent
unfolding serialize_bind get_transport_base transport_of get_portable_options validate_transport
    incomplete invalid_column invalid_part_key invalid_option is_portable_option bind_kind lookup
    emplace
transport_written = refl

abbrev session_options : String → Result (Map String)
session_options path = ok (("file.format", "parquet") ∷ ("s3.secret", "y") ∷ [])

abbrev session : Map String
session = ("file.format", "parquet") ∷ ("s3.secret", "y") ∷ []

deserialize_bind-serialize_bind_example :
    (bind' : ScanBindData String ℕ) × (deserialize_bind keys wire session_options sent ≡ ok bind')
    × (bind'.path ≡ transport.path)
    × (bind'.table_data_path ≡ "w/d.db/t")
    × (bind'.table_schema_json ≡ "schema")
    × (bind'.part_keys ≡ "p" ∷ [])
    × (bind'.distributed.schema_id ≡ pos 2)
    × (bind'.distributed.append_only ≡ true)
    × (bind'.distributed.return_types ≡ transport.return_types)
    × (bind'.distributed.return_names ≡ transport.return_names)
    × (bind'.distributed.split_set_id ≡ b'u' ∷ [])
    × (bind_kind bind'.distributed.phase ≡ bind_kind ScanPhase.coordinator)
    × (bind'.distributed.assigned_splits ≡ [])
    × ((key : String)
        → lookup key bind'.paimon_options ≡ (
            if is_some (lookup key transport.portable_options)
            then lookup key transport.portable_options
            else lookup key session))
unfolding transport_of get_portable_options lookup emplace
deserialize_bind-serialize_bind_example =
    deserialize_bind-serialize_bind keys wire session_options (bind_in ScanPhase.coordinator) []
      sent session transport-Carries transport_written refl

received_from :
    (bind : ScanBindData String ℕ) × (deserialize_bind keys wire session_options sent ≡ ok bind)
unfolding transport_of get_portable_options lookup emplace
received_from =
    let known =
      deserialize_bind-serialize_bind keys wire session_options (bind_in ScanPhase.coordinator) []
        sent session transport-Carries transport_written refl in
    (known.0, known.1)

serialize_bind-deserialize_bind_example : serialize_bind keys wire received_from.0 [] ≡ ok sent
serialize_bind-deserialize_bind_example =
    serialize_bind-deserialize_bind keys wire session_options BindKind.coordinator transport []
      received_from.0 transport-Carries refl received_from.1

create_worker_bind-deserialize_bind_example :
    (worker : ScanBindData String ℕ) × (create_worker_bind received_from.0 ≡ ok worker)
    × (worker.paimon_options ≡ ("file.format", "orc") ∷ [])
    × (worker.distributed.phase ≡ ScanPhase.worker_template)
    × (serialize_bind keys wire worker [] ≡ ok (write_bind wire 2 transport []))
create_worker_bind-deserialize_bind_example =
    create_worker_bind-deserialize_bind keys wire session_options transport [] received_from.0
      transport-Carries refl received_from.1
