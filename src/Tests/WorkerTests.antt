-- ===== src/Tests/WorkerTests.antt =====
-- The theorems on the worker's side of a distributed write at concrete inputs.
use duckdb_paimon.Prelude.{
  ℕ, ◌+◌, ◌*◌, ◌≤◌, ◌<◌, ◌≡◌, ◌↔◌, refl, true, false, some, List, [], ◌∷◌, arith, eqb, eqb,
}
use duckdb_paimon.Prelude.Int.{pos}
use duckdb_paimon.Sql.{Result, ok}
use duckdb_paimon.TablePath.{Text}
use duckdb_paimon.DistributedScan.SplitIds.{all_digits}
use duckdb_paimon.DistributedScan.Estimates.{index_maximum}
use duckdb_paimon.DistributedInsert.Identities.{
  bad_start, validate_component, after_prefix, logical_of, logical_from, logical_task_identity,
  checked_add, checked_add-IsExact, create_commit_identifier, create_commit_identifier-InRange,
  positive_id, max_int64, is_canonical_uuid, worker_commit_user,
}
use duckdb_paimon.DistributedInsert.LogicalTasks.{IsNumeral, attempt, logical_task_identity-IsSame}
use duckdb_paimon.DistributedInsert.Transport.{
  WriteTransport, deserialize_transport, validate_write_transport, bad_snapshot, write_fields,
}
use duckdb_paimon.DistributedInsert.Transport.RoundTrip.{deserialize_transport-serialize_transport}
use duckdb_paimon.DistributedInsert.CommitEnvelope.{
  CommitEnvelope, invalid_envelope, serialize_envelope, deserialize_envelope,
  deserialize_envelope-serialize_envelope,
}
use duckdb_paimon.DistributedInsert.Tasks.{TaskContext, Fragment, validate_task}
use duckdb_paimon.DistributedInsert.Worker.{
  WorkerState, worker_combine, fragment_of, publish, publish_messages, worker_finalize,
}
use duckdb_paimon.DistributedInsert.Ownership.{
  accounted, weigh_given, prepared, worker_combine-weighs,
}
use duckdb_paimon.Tests.SampleWire.{wire}
use duckdb_paimon.Tests.CommitSample.{of_table-IsLossless, of_table, writers}
use duckdb_paimon.Tests.WriteSample.{
  split_at_dots, platform, platform-Splits, keys, bind, bind-IsReversible, bind_bytes, bind_sent,
}

checked_add-IsExact_example :
    ((total : ℕ) → checked_add 3 4 "rows" ≡ ok total → (total ≡ 3 + 4) × (total ≤ index_maximum))
    × (3 + 4 ≤ index_maximum → checked_add 3 4 "rows" ≡ ok (3 + 4))
checked_add-IsExact_example = checked_add-IsExact 3 4 "rows" (omega arith)

create_commit_identifier-InRange_example :
    (0 < create_commit_identifier platform bind.operation_id)
    × (create_commit_identifier platform bind.operation_id ≤ max_int64)
create_commit_identifier-InRange_example =
    create_commit_identifier-InRange platform bind.operation_id

zero_replaced : positive_id (2 * max_int64 + 2) ≡ 1
unfolding positive_id
zero_replaced = refl

abbrev query : Text
query = b'q' ∷ []

abbrev three : Text
three = b'3' ∷ []

abbrev twelve : Text
twelve = b'1' ∷ b'2' ∷ []

three-IsNumeral : IsNumeral three
unfolding bad_start all_digits
three-IsNumeral = record { start = refl; digits = refl }

twelve-IsNumeral : IsNumeral twelve
unfolding bad_start all_digits
twelve-IsNumeral = record { start = refl; digits = refl }

logical_task_identity-IsSame_example :
    (logical_task_identity platform query (attempt query three twelve three)
      ≡ logical_task_identity platform query (attempt query three twelve twelve))
    ↔ ((three ≡ three) × (twelve ≡ twelve))
logical_task_identity-IsSame_example =
    logical_task_identity-IsSame platform query three twelve three three twelve twelve
      platform-Splits refl (three-IsNumeral, twelve-IsNumeral, three-IsNumeral)
      (three-IsNumeral, twelve-IsNumeral, twelve-IsNumeral)

deserialize_transport-serialize_transport_example :
    (deserialize_transport platform keys.catalog.table wire bind_bytes ≡ ok bind)
    × ((received : Text) (other : WriteTransport)
        → deserialize_transport platform keys.catalog.table wire received ≡ ok other
        → validate_write_transport platform keys.catalog.table other ≡ ok tt)
deserialize_transport-serialize_transport_example =
    deserialize_transport-serialize_transport platform keys.catalog.table wire bind bind_bytes
      bind-IsReversible bind_sent

abbrev envelope : CommitEnvelope
envelope = of_table (record {
  operation_id = bind.operation_id;
  table_uuid = "";
  table_path = "";
  schema_fingerprint = bind.schema_fingerprint;
  schema_id = pos 0;
  has_snapshot = true;
  snapshot_id = pos 7;
  commit_identifier = pos 5;
  query_id = query;
  task_attempt_id = three;
  writer_commit_user = twelve;
  commit_message_version = pos 1;
  message_count = 2;
  row_count = 9;
  serialized_transport = bind_bytes;
  serialized_messages = 2 ∷ 8 ∷ 9 ∷ [];
})

envelope_valid : invalid_envelope platform envelope ≡ false
unfolding invalid_envelope is_canonical_uuid platform bad_snapshot write_fields wire
envelope_valid = refl

deserialize_envelope-serialize_envelope_example :
    (deserialize_envelope wire platform (serialize_envelope wire envelope) ≡ ok envelope)
    × ((bytes : Text) (other : CommitEnvelope)
        → deserialize_envelope wire platform bytes ≡ ok other
        → invalid_envelope platform other ≡ false)
deserialize_envelope-serialize_envelope_example =
    deserialize_envelope-serialize_envelope wire platform envelope (of_table-IsLossless envelope)
      envelope_valid

abbrev task : TaskContext
task = record { query_id = query; task_attempt_id = attempt query three twelve three }

abbrev accepted : TaskContext → Result (Unit {0})
accepted t = ok tt

abbrev busy : WorkerState ℕ ℕ
busy = record {
  global = record {
    transport = bind;
    options = [];
    query_id = task.query_id;
    task_attempt_id = task.task_attempt_id;
    writer_commit_user =
        worker_commit_user platform bind.operation_id task.query_id task.task_attempt_id;
    next_write_id = 2;
    messages = 4 ∷ [];
    row_count = 4;
    part_col_idxs = [];
    finalized = false;
  };
  local = record { writer = some 9; row_count = 3 };
  aborted = [];
}

task_valid : validate_task platform accepted busy.global task ≡ ok tt
unfolding validate_task logical_task_identity logical_from logical_of after_prefix
    validate_component bad_start all_digits platform split_at_dots
task_valid = refl

abbrev once : ℕ → ℕ
once m = 1

worker_combine-weighs_example :
    accounted once (worker_combine writers platform accepted task busy).1
    ≡ accounted once busy
      + weigh_given once (
          prepared once writers busy.local.writer
            (eqb busy.local.row_count 0)
            busy.global.transport.commit_identifier)
worker_combine-weighs_example =
    worker_combine-weighs once writers platform accepted task busy task_valid

abbrev finished : WorkerState ℕ ℕ
finished = record busy { global = record busy.global { messages = []; finalized = true } }

abbrev handed : List Fragment
handed =
    fragment_of writers wire (record busy.global { finalized = true }) task bind_bytes (1 ∷ 4 ∷ [])
    ∷ []

ends : worker_finalize writers platform wire wire keys accepted task busy ≡ (ok handed, finished)
unfolding worker_finalize publish_messages publish
ends = rw (task_valid, bind_sent) refl
