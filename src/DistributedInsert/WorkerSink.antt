-- ===== src/DistributedInsert/WorkerSink.antt =====
-- The worker's sink: a chunk is checked against the frozen input types and written by partition.
use duckdb_paimon.Prelude.{not, List, Option, some, none, Map, String, length, same_list}
use duckdb_paimon.Sql.{
  LogicalType, Result, ok, throw, throw_if, invalid_input, internal_exception, ◌>>=◌, ◌>>◌,
}
use duckdb_paimon.Insert.Sink.{Row, Partitioning, sink_batches, write_each}
use duckdb_paimon.DistributedInsert.Identities.{Platform, checked_add}
use duckdb_paimon.DistributedInsert.Tasks.{WorkerGlobal, TaskContext, validate_task}
use duckdb_paimon.DistributedInsert.Worker.{WorkerApi, WorkerLocal}

-- The fields of `global` that the grouping of rows reads.
abbrev pub worker_partitioning : {Message : Type 0} → WorkerGlobal Message → Partitioning
worker_partitioning g = record {
  part_key_names = g.transport.part_keys;
  part_col_idxs = g.part_col_idxs;
  null_part_name = g.transport.null_part_name;
}

module _ {Writer Message : Type 0} (api : WorkerApi Writer Message) where
  -- Writing with no writer is a call through a null pointer, which DuckDB's pointer throws on.
  unfoldable pub write_batches : Option Writer → List (Map String × List Row) → Result Writer
  write_batches none batches =
      throw (internal_exception "Attempted to dereference unique_ptr that is NULL")
  write_batches (some writer) batches = write_each api.write writer batches

  -- `PaimonDistributedInsertSink` on a chunk, by its types and its rows.
  unfoldable pub worker_sink :
      Platform
      → (TaskContext → Result (Unit {0}))
      → TaskContext
      → WorkerGlobal Message
      → WorkerLocal Writer
      → List LogicalType × List Row
      → Result (WorkerLocal Writer)
  worker_sink p validate task g l (types, rows) = do
    validate_task p validate g task
    throw_if (not (same_list p.same_type types g.transport.input_types)) (
        invalid_input
          "Distributed Paimon INSERT worker input schema does not match its frozen target")
    batches ← sink_batches (worker_partitioning g) rows
    writer ← write_batches l.writer batches
    count ←
        checked_add l.row_count (length rows)
          "Distributed Paimon INSERT worker row count exceeds idx_t"
    ok (record { writer = some writer; row_count = count })
