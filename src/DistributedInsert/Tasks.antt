-- ===== src/DistributedInsert/Tasks.antt =====
-- A task of a distributed write on its worker: its identity, its runtime options, and its state when it
-- starts. The records of a task are those of Vane, DuckDB's distributed executor.
use duckdb_paimon.Prelude.{
  ℕ, Bool, true, false, not, ◌||◌, String, ◌==◌, Option, none, some, List, [], ◌∷◌, eqb, Map,
  assign,
}
use duckdb_paimon.Sql.{Result, ok, throw, throw_if, invalid_input, serialization, ◌>>=◌, ◌>>◌}
use duckdb_paimon.TablePath.{Text, text_eq}
use duckdb_paimon.Catalog.Options.{Environment, CatalogKeys, get_paimon_options}
use duckdb_paimon.DistributedScan.Transport.{overwrite_each}
use duckdb_paimon.Insert.Sink.{index_of}
use duckdb_paimon.Wire.{Wire}
use duckdb_paimon.DistributedInsert.Identities.{
  Platform, logical_task_identity, worker_commit_user, worker_data_file_prefix,
}
use duckdb_paimon.DistributedInsert.Transport.{
  WriteTransport, write_protocol, write_operator_name, deserialize_transport,
}

pub data WriteMode : Type 0 where
  callback_sink other_mode : WriteMode

pub record FragmentCodec : Type 0 where
  pub name : String
  pub version : ℕ

pub record Capability : Type 0 where
  pub extension_name : String
  pub name : String
  pub protocol_version : ℕ

-- DistributedExtensionWriteInfo; `name` is `Name()`.
pub record WriteInfo : Type 0 where
  pub mode : WriteMode
  pub capability : Capability
  pub fragment_codec : FragmentCodec
  pub name : String
  pub worker_bind_data : Text

-- DistributedWriteTaskContext
pub record TaskContext : Type 0 where
  pub query_id : Text
  pub task_attempt_id : Text

-- DistributedWriteFragment
pub record Fragment : Type 0 where
  pub fragment_id : Text
  pub payload : Text
  pub row_count : ℕ
  pub byte_count : ℕ
  pub artifacts : List Text

pub record WriteKeys : Type 0 where
  pub catalog : CatalogKeys
  pub data_file_prefix : String
  pub partition_default_name : String

-- `PaimonDistributedInsertGlobalState`
pub record WorkerGlobal (Message : Type 0) : Type 0 where
  pub transport : WriteTransport
  pub options : Map String
  pub query_id : Text
  pub task_attempt_id : Text
  pub writer_commit_user : Text
  pub next_write_id : ℕ
  pub messages : List Message
  pub row_count : ℕ
  pub part_col_idxs : List ℕ
  pub finalized : Bool

abbrev pub codec_name : String
codec_name = "paimon.append-commit-fragment"

abbrev pub is_callback_sink : WriteMode → Bool
is_callback_sink callback_sink = true
is_callback_sink other_mode = false

unfoldable pub worker_contract_differs : WriteInfo → Bool
worker_contract_differs info =
    not (is_callback_sink info.mode)
    || not (info.fragment_codec.name == codec_name)
    || not (eqb info.fragment_codec.version write_protocol)

-- The places of the partition keys among the input's columns.
unfoldable pub worker_part_indexes : List String → List String → Result (List ℕ)
worker_part_indexes fields [] = ok []
worker_part_indexes fields (key ∷ keys) = elim (index_of key fields) [
  | none ↦
      throw (serialization "Distributed Paimon INSERT partition key is absent from worker input")
  | some i ↦ worker_part_indexes fields keys >>= λ later. ok (i ∷ later)
]

-- `ValidateTask`; `validate` is `DistributedWriteTaskContext::Validate`.
unfoldable pub validate_task :
    {Message : Type 0}
    → Platform
    → (TaskContext → Result (Unit {0}))
    → WorkerGlobal Message
    → TaskContext
    → Result (Unit {0})
validate_task p validate global task = do
  validate task
  logical ← logical_task_identity p task.query_id task.task_attempt_id
  throw_if
      (not (text_eq global.query_id task.query_id)
        || not (text_eq global.task_attempt_id task.task_attempt_id))
      (invalid_input "Distributed Paimon INSERT worker task identity changed during execution")
  ok tt

module _ (p : Platform) (env : Environment) (keys : WriteKeys) where
  abbrev with_prefix : WriteTransport → Option TaskContext → Map String → Map String
  with_prefix t none options = options
  with_prefix t (some task) options =
      assign keys.data_file_prefix
        (p.string_of (worker_data_file_prefix p t.operation_id task.query_id task.task_attempt_id))
        options

  -- `BuildRuntimeOptions`, with no options from the statement.
  unfoldable pub build_runtime_options : WriteTransport → Option TaskContext → Result (Map String)
  build_runtime_options t task = do
    base ← get_paimon_options env keys.catalog t.table_path []
    ok (with_prefix t task (overwrite_each t.portable_options base))

  module _ (codec : Wire) (validate : TaskContext → Result (Unit {0})) where
    -- `PaimonDistributedInsertInitializeGlobal`
    unfoldable pub initialize_global :
        {Message : Type 0} → WriteInfo → TaskContext → Result (WorkerGlobal Message)
    initialize_global info task = do
      throw_if (worker_contract_differs info) (
          invalid_input
            "Distributed Paimon write worker contract does not match its registered protocol")
      validate task
      t ← deserialize_transport p keys.catalog.table codec info.worker_bind_data
      name ← write_operator_name t.write_kind
      throw_if (not (info.name == name)) (
          invalid_input
            "Distributed Paimon write kind does not match its registered worker operator")
      options ← build_runtime_options t (some task)
      idxs ← worker_part_indexes t.input_names t.part_keys
      ok (record {
        transport = t;
        options = options;
        query_id = task.query_id;
        task_attempt_id = task.task_attempt_id;
        writer_commit_user = worker_commit_user p t.operation_id task.query_id task.task_attempt_id;
        next_write_id = 0;
        messages = [];
        row_count = 0;
        part_col_idxs = idxs;
        finalized = false;
      })
