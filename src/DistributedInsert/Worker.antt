-- ===== src/DistributedInsert/Worker.antt =====
-- The callbacks of a worker: they open a writer, write chunks, gather the commit messages of the threads,
-- and hand them over in a fragment. The writer and the codec of messages are paimon-cpp's.
use duckdb_paimon.Prelude.{
  ℕ, ◌+◌, ◌-◌, ◌%◌, ◌^◌, Bool, true, false, not, String, Option, none, some, List, [], ◌∷◌, ◌++◌,
  map, eqb, ltb, is_empty, length, Map, if◌then◌else◌,
}
use duckdb_paimon.Prelude.Int.{ℤ}
use duckdb_paimon.Sql.{Result, ok, throw, io_exception, invalid_input, internal_exception}
use duckdb_paimon.Paimon.{Status, Outcome, value, status}
use duckdb_paimon.TablePath.{Text}
use duckdb_paimon.DistributedScan.Estimates.{index_maximum}
use duckdb_paimon.Insert.Sink.{Row}
use duckdb_paimon.Insert.Commit.{require_ok}
use duckdb_paimon.Wire.{Wire}
use duckdb_paimon.DistributedInsert.Actions.{
  Action, pure, reads, modify, on_throw, raise_if, ◌>>=◌, ◌>>◌,
}
use duckdb_paimon.DistributedInsert.Identities.{Platform, checked_add, expected_fragment_id}
use duckdb_paimon.DistributedInsert.Transport.{serialize_transport}
use duckdb_paimon.DistributedInsert.CommitEnvelope.{CommitEnvelope, serialize_envelope}
use duckdb_paimon.DistributedInsert.Tasks.{
  WorkerGlobal, TaskContext, Fragment, WriteKeys, validate_task,
}

-- What the code calls of paimon-cpp's writer and of its commit messages. A null message is none.
pub record WorkerApi (Writer Message : Type 0) : Type 0 where
  -- The write context of a path, a commit user, a write id and options, and FileStoreWrite::Create.
  pub create : String → Text → ℕ → Map String → Outcome Writer
  pub write : Writer → Map String → List Row → Option Status × Writer
  pub prepare_commit : Writer → ℤ → Outcome (List (Option Message)) × Writer
  pub close : Writer → Option Status
  pub serialize_list : List Message → Outcome Text
  pub current_version : ℤ

-- `PaimonDistributedInsertLocalState`; a writer that was reset is none.
pub record WorkerLocal (Writer : Type 0) : Type 0 where
  pub writer : Option Writer
  pub row_count : ℕ

-- The state that a callback works on, and the messages that it gave to `BestEffortAbortMessages`, which
-- never throws.
pub record WorkerState (Writer Message : Type 0) : Type 0 where
  pub global : WorkerGlobal Message
  pub local : WorkerLocal Writer
  pub aborted : List (Option Message)

-- The messages that are not null.
unfoldable pub valid_messages : {Message : Type 0} → List (Option Message) → List Message
valid_messages [] = []
valid_messages (none ∷ messages) = valid_messages messages
valid_messages (some m ∷ messages) = m ∷ valid_messages messages

unfoldable pub has_null : {Message : Type 0} → List (Option Message) → Bool
has_null [] = false
has_null (none ∷ messages) = true
has_null (some m ∷ messages) = has_null messages

-- The largest write id, that of an int32.
abbrev max_write_id : ℕ
max_write_id = 2147483647

module _ {Writer Message : Type 0} (api : WorkerApi Writer Message) where
  abbrev pub raise_status : {A : Type 0} → Status → Action (WorkerState Writer Message) A
  raise_status e s = (throw (io_exception e.text), s)

  -- `BestEffortAbortMessages` with the options and the commit user of the task.
  abbrev pub abort_all : List (Option Message) → Action (WorkerState Writer Message) (Unit {0})
  abort_all messages = modify (λ s. record s { aborted = s.aborted ++ messages })

  -- `local.writer.reset()`
  abbrev reset_writer : WorkerState Writer Message → WorkerState Writer Message
  reset_writer s = record s { local = record s.local { writer = none } }

  unfoldable pub opened : Outcome Writer → Result (WorkerLocal Writer)
  opened (status e) = throw (io_exception e.text)
  opened (value writer) = ok (record { writer = some writer; row_count = 0 })

  -- `global.messages` and `global.row_count` with those of a thread.
  abbrev with_messages : ℕ → List Message → WorkerState Writer Message → WorkerState Writer Message
  with_messages rows messages s = record s {
    global = record s.global { messages = s.global.messages ++ messages; row_count = rows };
  }

  -- The part of `Combine` under the lock, with its handler.
  unfoldable pub accept : List Message → Action (WorkerState Writer Message) (Unit {0})
  accept messages =
      on_throw
        (do
          rows ← reads (λ s.
              checked_add s.global.row_count s.local.row_count
                "Distributed Paimon INSERT task row count exceeds idx_t")
          held ← reads (λ s. ok (length s.global.messages))
          raise_if (ltb (index_maximum - held) (length messages))
              (invalid_input "Distributed Paimon INSERT worker produced too many commit messages")
          modify (with_messages rows messages))
        (abort_all (map some messages))

  -- `Combine` after a prepared commit and the status of `Close`.
  unfoldable pub after_close :
      Option Status → List (Option Message) → Action (WorkerState Writer Message) (Unit {0})
  after_close (some e) messages = do abort_all messages; raise_status e
  after_close none messages = do
    raise_if (is_empty messages) (
        io_exception
          "Distributed Paimon INSERT writer returned no commit messages for non-empty input")
    if has_null messages
        then (do
          abort_all (map some (valid_messages messages))
          raise_if true
              (io_exception "Distributed Paimon INSERT writer returned an empty commit message"))
        else accept (valid_messages messages)

  unfoldable pub after_prepare :
      Outcome (List (Option Message)) × Writer → Action (WorkerState Writer Message) (Unit {0})
  after_prepare (status e, writer) = do modify reset_writer; raise_status e
  after_prepare (value messages, writer) = do
    modify reset_writer
    after_close (api.close writer) messages

  -- A writer that got no rows is only closed.
  unfoldable pub combine_writer :
      Option Writer → Bool → ℤ → Action (WorkerState Writer Message) (Unit {0})
  combine_writer none nothing commit_identifier =
      raise_if true
        (internal_exception "Distributed Paimon INSERT local writer was already combined")
  combine_writer (some writer) true commit_identifier = do
    modify reset_writer
    reads (λ s. require_ok (api.close writer))
  combine_writer (some writer) false commit_identifier =
      after_prepare (api.prepare_commit writer commit_identifier)

  module _ (p : Platform) (validate : TaskContext → Result (Unit {0})) where
    -- `PaimonDistributedInsertInitializeLocal`; `fetch_add` on a uint32 wraps.
    unfoldable pub initialize_local :
        TaskContext → Action (WorkerGlobal Message) (WorkerLocal Writer)
    initialize_local task = do
      reads (λ g. validate_task p validate g task)
      write_id ← reads (λ g. ok g.next_write_id)
      modify (λ g. record g { next_write_id = (g.next_write_id + 1) % 2 ^ 32 })
      raise_if (ltb max_write_id write_id)
          (invalid_input "Distributed Paimon INSERT worker exhausted its write identities")
      reads
          (λ g. opened (api.create g.transport.table_path g.writer_commit_user write_id g.options))

    -- `PaimonDistributedInsertCombine`
    unfoldable pub worker_combine : TaskContext → Action (WorkerState Writer Message) (Unit {0})
    worker_combine task = do
      reads (λ s. validate_task p validate s.global task)
      writer ← reads (λ s. ok s.local.writer)
      nothing ← reads (λ s. ok (eqb s.local.row_count 0))
      commit_identifier ← reads (λ s. ok s.global.transport.commit_identifier)
      combine_writer writer nothing commit_identifier

  unfoldable pub envelope_of : WorkerGlobal Message → TaskContext → Text → Text → CommitEnvelope
  envelope_of g task transport_bytes message_bytes = record {
    operation_id = g.transport.operation_id;
    table_uuid = g.transport.table_uuid;
    table_path = g.transport.table_path;
    schema_fingerprint = g.transport.schema_fingerprint;
    schema_id = g.transport.schema_id;
    has_snapshot = g.transport.has_snapshot;
    snapshot_id = g.transport.snapshot_id;
    commit_identifier = g.transport.commit_identifier;
    query_id = task.query_id;
    task_attempt_id = task.task_attempt_id;
    writer_commit_user = g.writer_commit_user;
    commit_message_version = api.current_version;
    message_count = length g.messages;
    row_count = g.row_count;
    serialized_transport = transport_bytes;
    serialized_messages = message_bytes;
  }

  unfoldable pub fragment_of : Wire → WorkerGlobal Message → TaskContext → Text → Text → Fragment
  fragment_of envelopes g task transport_bytes message_bytes = record {
    fragment_id = expected_fragment_id g.transport.operation_id task.task_attempt_id;
    payload = serialize_envelope envelopes (envelope_of g task transport_bytes message_bytes);
    row_count = g.row_count;
    byte_count = 0;
    artifacts = [];
  }

  module _ (p : Platform) (codec : Wire) (envelopes : Wire) (keys : WriteKeys) where
    -- `Finalize` with the serialized messages. The messages are let go at the very end.
    unfoldable pub publish :
        WorkerGlobal Message
        → TaskContext
        → Outcome Text
        → Action (WorkerState Writer Message) (List Fragment)
    publish g task (status e) = do abort_all (map some g.messages); raise_status e
    publish g task (value message_bytes) = do
      transport_bytes ← reads (λ s. serialize_transport p keys.catalog.table codec g.transport)
      modify (λ s. record s { global = record s.global { messages = [] } })
      pure (fragment_of envelopes g task transport_bytes message_bytes ∷ [])

    unfoldable pub publish_messages :
        WorkerGlobal Message
        → TaskContext
        → List Message
        → Action (WorkerState Writer Message) (List Fragment)
    publish_messages g task [] = do
      raise_if (not (eqb g.row_count 0))
          (internal_exception "Distributed Paimon INSERT lost commit messages for non-empty input")
      pure []
    publish_messages g task (m ∷ messages) = do
      raise_if (eqb g.row_count 0)
          (internal_exception "Distributed Paimon INSERT produced commit messages for empty input")
      publish g task (api.serialize_list (m ∷ messages))

    -- `PaimonDistributedInsertFinalize`
    unfoldable pub worker_finalize :
        (TaskContext → Result (Unit {0}))
        → TaskContext
        → Action (WorkerState Writer Message) (List Fragment)
    worker_finalize validate task = do
      reads (λ s. validate_task p validate s.global task)
      finalized ← reads (λ s. ok s.global.finalized)
      raise_if finalized (invalid_input "Distributed Paimon INSERT worker finalized more than once")
      modify (λ s. record s { global = record s.global { finalized = true } })
      g ← reads (λ s. ok s.global)
      publish_messages g task g.messages

  -- The destructor of the global state.
  unfoldable pub destroy : WorkerState Writer Message → WorkerState Writer Message
  destroy s = record s { aborted = s.aborted ++ map some s.global.messages }
