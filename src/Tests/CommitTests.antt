-- ===== src/Tests/CommitTests.antt =====
-- The theorems on the commit of a distributed write, on an operator that is prepared and a table that is
-- as it was planned.
use native.Mathlib.Decide.{ℕ_discrete}
use duckdb_paimon.Prelude.{
  ℕ, ◌≡◌, refl, true, false, none, some, List, [], ◌∷◌, map, lookup, assign, emplace, same_list,
}
use duckdb_paimon.Prelude.Int.{pos}
use duckdb_paimon.Sql.{ok}
use duckdb_paimon.Paimon.{value}
use duckdb_paimon.DistributedInsert.Target.{
  DataSchema, TableCatalog, TargetState, load_target_state, load_table_uuid, stable_uuid,
  required_schema, required_columns, last_snapshot, target_of, null_part_name_of,
}
use duckdb_paimon.DistributedInsert.Operator.{
  PaimonInsert, validate_coordinator_shape, coordinator_transport, only_child_differs,
  transport_differs, coordinator_catalog, schema_differs, snapshot_differs, same_map, included,
}
use duckdb_paimon.DistributedInsert.Coordinator.{
  committed, CoordinatorState, Outside, check_baseline, validate_target_baseline, load_current,
}
use duckdb_paimon.DistributedInsert.Methods.{
  finalize_distributed_write, commit_results, decode, decoded_or_abort, ready_to_commit, ready_from,
  commit_messages, committed_count,
}
use duckdb_paimon.DistributedInsert.Baseline.{Unchanged, validate_target_baseline-Unchanged}
use duckdb_paimon.DistributedInsert.Commitment.{finalize_distributed_write-Finalized}
use duckdb_paimon.DistributedInsert.Outcomes.{Finalized}
use duckdb_paimon.DistributedInsert.Sequences.{
  Event, validated, elsewhere, finalized, abandoned, run_events, CommitLast,
}
use duckdb_paimon.DistributedInsert.Closing.{run_events-CommitLast}
use duckdb_paimon.Catalog.Options.{
  get_paimon_options, metastore_options, metastore_from, try_get, ci_equals, format_option,
  secret_options, file_system, is_oss, is_s3, snapshot_options,
}
use duckdb_paimon.DistributedScan.SplitIds.{all_digits}
use duckdb_paimon.DistributedScan.Transport.{overwrite_each}
use duckdb_paimon.DistributedInsert.Identities.{
  coordinator_commit_user, is_canonical_uuid, logical_task_identity, logical_from, logical_of,
  after_prefix, validate_component, bad_start, expected_fragment_id, worker_commit_user,
  compact_uuid, attempt_digest, checked_add,
}
use duckdb_paimon.DistributedInsert.Transport.{
  deserialize_transport, validate_write_transport, incomplete_target, write_operator_name,
  bad_snapshot, invalid_input_column, invalid_key, invalid_write_option, is_portable_write_option,
  serialize_transport, write_fields, read_fields,
}
use duckdb_paimon.DistributedInsert.CommitEnvelope.{
  serialize_envelope, deserialize_envelope, read_envelope, invalid_envelope,
}
use duckdb_paimon.DistributedInsert.Tasks.{build_runtime_options}
use duckdb_paimon.DistributedInsert.Worker.{fragment_of, envelope_of}
use duckdb_paimon.DistributedInsert.DecodeState.{
  coordinator_contract_differs, with_query, with_attempt, with_logical, with_fragment, with_message,
  with_rows, seen, bad_fragment, envelope_differs,
}
use duckdb_paimon.DistributedInsert.Decode.{
  decode_commit_results, add_results, add_result, add_fragments, add_envelope, decoded_list,
  add_messages, canonical_of,
}
use duckdb_paimon.Tests.SampleWire.{
  wire, int_type, put_field, get_field, put_types, get_types, put_names, get_names, put_options,
  get_options, code_in, string_in, under, get_under,
}
use duckdb_paimon.DistributedInsert.Handover.{result_of}
use duckdb_paimon.Tests.CoordinatorTests.{tasks}
use duckdb_paimon.Tests.TableStore.{memory}
use duckdb_paimon.Tests.CommitSample.{numbers, write_info, vane}
use duckdb_paimon.Tests.WriteSample.{
  platform, platform-ComparesTypes, keys, environment, bind, bind_bytes, split_at_dots,
}

abbrev schema : DataSchema
schema = record {
  id = pos 0;
  primary_keys = [];
  part_keys = [];
  options = ("bucket", "1") ∷ [];
  field_names = "a" ∷ [];
  arrow_schema = value (some (ok ("a" ∷ [], int_type ∷ [])));
  json = value (b'j' ∷ []);
}

abbrev catalog : TableCatalog memory
catalog = record {
  table_exists = λ s db t. (value true, s);
  table_uuid = λ s db t. (value (some "u"), s);
  table_location = λ s db t. (value "/t", s);
  load_schema = λ s db t. (value (some schema), s);
  list_snapshots = λ s db t. (value [], s);
}

abbrev outside : Outside memory ℕ
outside = record {
  platform = platform;
  env = environment;
  keys = keys;
  codec = wire;
  envelopes = wire;
  vane = vane;
  messages_api = numbers;
  catalog = catalog;
  commits = record {
    create_committer = λ path options user check. none;
    abort = λ s user messages. (none, s);
    filter_and_commit = λ s user id messages. (value (pos 1), s);
    resolve_info = λ plan. ok write_info;
  };
}

abbrev operator : PaimonInsert
operator = record {
  schema = some (record { name = "db"; read_only = false });
  info = none;
  database_name = "db";
  table_name = "t";
  paimon_options = [];
  part_keys = [];
  children = (int_type ∷ []) ∷ [];
  plan = record {
    extension_name = "paimon";
    operator_name = "insert";
    worker_bind_data = bind_bytes;
  };
  has_context = true;
  target = record {
    operation_id = bind.operation_id;
    table_uuid = "u";
    table_path = "/t";
    schema_fingerprint = bind.schema_fingerprint;
    table_schema_json = b'j' ∷ [];
    input_types = int_type ∷ [];
    input_names = "a" ∷ [];
    primary_keys = [];
    table_options = ("bucket", "1") ∷ [];
    portable_options = bind.portable_options;
    null_part_name = bind.null_part_name;
    schema_id = pos 0;
    commit_identifier = pos 5;
    append_only = true;
    has_snapshot = false;
    snapshot_id = pos 0;
  };
  target_initialized = true;
  worker_plan_selected = true;
  prepare_started = true;
  target_prepared = true;
  finalize_started = false;
}

abbrev state : CoordinatorState memory ℕ
state = record {
  insert = operator;
  store = ([], []);
  tables = record { inited = false; entries = [] };
  calls = [];
}

baseline_valid : validate_target_baseline outside operator state ≡ (ok tt, state)
unfolding validate_target_baseline coordinator_catalog check_baseline schema_differs
    snapshot_differs same_map included same_list load_target_state load_table_uuid stable_uuid
    required_schema required_columns last_snapshot target_of null_part_name_of lookup platform
    ℕ_discrete
baseline_valid = refl

validate_target_baseline-Unchanged_example :
    (current : TargetState) × (load_current outside operator state ≡ (ok current, state))
    × Unchanged operator current
validate_target_baseline-Unchanged_example =
    validate_target_baseline-Unchanged outside operator state state platform-ComparesTypes
      baseline_valid

abbrev after : CoordinatorState memory ℕ
after = record state {
  insert = record operator { finalize_started = true };
  calls =
      committed (coordinator_commit_user platform bind.operation_id) (pos 5) (7 ∷ 8 ∷ 9 ∷ []) ∷ [];
}

all_committed :
    finalize_distributed_write outside (map (result_of write_info) tasks) state ≡ (ok 11, after)
unfolding finalize_distributed_write validate_coordinator_shape coordinator_transport
    deserialize_transport validate_write_transport incomplete_target is_canonical_uuid
    write_operator_name bad_snapshot invalid_input_column invalid_key invalid_write_option
    is_portable_write_option only_child_differs transport_differs build_runtime_options
    get_paimon_options metastore_options metastore_from try_get ci_equals format_option
    secret_options file_system is_oss is_s3 snapshot_options overwrite_each assign emplace
    commit_results decode decoded_or_abort decode_commit_results coordinator_contract_differs
    serialize_transport add_results add_result with_query with_attempt with_logical with_fragment
    with_message with_rows logical_task_identity logical_from logical_of after_prefix
    validate_component bad_start all_digits split_at_dots seen add_fragments bad_fragment
    expected_fragment_id fragment_of envelope_of serialize_envelope deserialize_envelope
    invalid_envelope envelope_differs worker_commit_user compact_uuid attempt_digest wire
    read_envelope write_fields read_fields put_field get_field put_types get_types put_names
    get_names put_options get_options code_in string_in under get_under add_envelope decoded_list
    checked_add add_messages canonical_of ready_to_commit ready_from commit_messages committed_count
    coordinator_commit_user validate_target_baseline coordinator_catalog check_baseline
    schema_differs snapshot_differs same_map included same_list load_target_state load_table_uuid
    stable_uuid required_schema required_columns last_snapshot target_of null_part_name_of lookup
    platform ℕ_discrete
all_committed = refl

finalize_distributed_write-Finalized_example :
    Finalized outside state
      (map (result_of write_info) tasks)
      (finalize_distributed_write outside (map (result_of write_info) tasks) state).0
      (finalize_distributed_write outside (map (result_of write_info) tasks) state).1.calls
finalize_distributed_write-Finalized_example =
    finalize_distributed_write-Finalized outside state (map (result_of write_info) tasks)
      platform-ComparesTypes

-- A finalization with another write to the store before it, a second one and a late abort.
abbrev events : List (Event memory)
events =
    validated
    ∷ elsewhere ([], [])
    ∷ finalized (map (result_of write_info) tasks)
    ∷ finalized (map (result_of write_info) tasks)
    ∷ abandoned (map (result_of write_info) tasks)
    ∷ []

run_events-CommitLast_example : CommitLast (run_events outside events state).calls
run_events-CommitLast_example =
    run_events-CommitLast outside platform-ComparesTypes events state refl refl
