-- ===== src/DistributedInsert/DecodeState.antt =====
-- What `DecodeCommitResults` works on, its local variables with the messages and rows decoded so far, and
-- the checks of results, fragments and envelopes that have no effect.
use duckdb_paimon.Prelude.{
  ℕ, Bool, true, false, not, ◌||◌, String, ◌==◌, Option, List, [], ◌∷◌, ◌++◌, eqb, is_empty,
  same_bool,
}
use duckdb_paimon.Prelude.Int.{ℤ, eqb_ℤ}
use duckdb_paimon.Sql.{Result}
use duckdb_paimon.Paimon.{Outcome}
use duckdb_paimon.TablePath.{Text, text_eq}
use duckdb_paimon.DistributedInsert.Identities.{Platform, worker_commit_user, expected_fragment_id}
use duckdb_paimon.DistributedInsert.Transport.{WriteTransport, write_protocol}
use duckdb_paimon.DistributedInsert.CommitEnvelope.{CommitEnvelope}
use duckdb_paimon.DistributedInsert.Tasks.{
  WriteInfo, Capability, FragmentCodec, Fragment, codec_name, is_callback_sink,
}

-- DistributedWriteTaskResult, with `RowCount()` and `ByteCount()`.
pub record TaskResult : Type 0 where
  pub capability : Capability
  pub fragment_codec : FragmentCodec
  pub query_id : Text
  pub task_attempt_id : Text
  pub fragments : List Fragment
  pub row_count : ℕ
  pub byte_count : ℕ

-- Vane's functions on results: `Validate`, and the comparisons.
pub record Vane : Type 0 where
  pub validate_result : TaskResult → Result (Unit {0})
  pub same_capability : Capability → Capability → Bool
  pub same_codec : FragmentCodec → FragmentCodec → Bool

-- What the code calls of paimon::CommitMessage. A null message is none.
pub record MessageApi (Message : Type 0) : Type 0 where
  pub deserialize_list : ℤ → Text → Outcome (List (Option Message))
  pub serialize : Message → Outcome Text
  pub current_version : ℤ

-- The local variables of `DecodeCommitResults` with `PaimonDecodedDistributedCommit`.
pub record DecodeState (Message : Type 0) : Type 0 where
  pub task_attempt_ids : List Text
  pub logical_task_ids : List Text
  pub fragment_ids : List Text
  pub canonical_messages : List Text
  pub query_id : Text
  pub duplicate_logical_task_id : Text
  pub messages : List Message
  pub row_count : ℕ

abbrev pub start : {Message : Type 0} → DecodeState Message
start = record {
  task_attempt_ids = [];
  logical_task_ids = [];
  fragment_ids = [];
  canonical_messages = [];
  query_id = [];
  duplicate_logical_task_id = [];
  messages = [];
  row_count = 0;
}

-- `find` in a set of texts.
unfoldable pub seen : Text → List Text → Bool
seen text [] = false
seen text (x ∷ xs) = text_eq x text || seen text xs

-- `ValidateResolvedInfo`, given the name of the kind's operator.
unfoldable pub coordinator_contract_differs : WriteInfo → String → Bool
coordinator_contract_differs info name =
    not (is_callback_sink info.mode)
    || not (info.capability.extension_name == "paimon")
    || not (info.capability.name == name)
    || not (eqb info.capability.protocol_version write_protocol)
    || not (info.fragment_codec.name == codec_name)
    || not (eqb info.fragment_codec.version write_protocol)

-- The largest int32, in which the codec counts the bytes.
abbrev pub codec_limit : ℕ
codec_limit = 2147483647

-- The query of the results so far: the first one sets it.
abbrev pub query_of : Text → Text → Text
query_of [] query_id = query_id
query_of (c ∷ known) query_id = c ∷ known

abbrev pub is_inconsistent : Text → Text → Bool
is_inconsistent [] query_id = false
is_inconsistent (c ∷ known) query_id = not (text_eq (c ∷ known) query_id)

-- The first duplicate is kept.
abbrev pub duplicate_of : Text → Bool → Text → Text
duplicate_of [] true logical_task_id = logical_task_id
duplicate_of duplicate repeated logical_task_id = duplicate

module _ {Message : Type 0} where
  unfoldable pub with_query : Text → DecodeState Message → DecodeState Message
  with_query query_id s = record s { query_id = query_of s.query_id query_id }

  unfoldable pub with_attempt : Text → DecodeState Message → DecodeState Message
  with_attempt attempt s = record s { task_attempt_ids = attempt ∷ s.task_attempt_ids }

  -- `insert` into the logical tasks.
  unfoldable pub with_logical : Text → DecodeState Message → DecodeState Message
  with_logical logical s = record s {
    logical_task_ids = logical ∷ s.logical_task_ids;
    duplicate_logical_task_id =
        duplicate_of s.duplicate_logical_task_id (seen logical s.logical_task_ids) logical;
  }

  unfoldable pub with_fragment : Text → DecodeState Message → DecodeState Message
  with_fragment fragment_id s = record s { fragment_ids = fragment_id ∷ s.fragment_ids }

  unfoldable pub with_message : Text → Message → DecodeState Message → DecodeState Message
  with_message canonical m s = record s {
    canonical_messages = canonical ∷ s.canonical_messages;
    messages = s.messages ++ m ∷ [];
  }

  unfoldable pub with_rows : ℕ → DecodeState Message → DecodeState Message
  with_rows rows s = record s { row_count = rows }

-- The fragment's own data, but for what was seen before.
unfoldable pub bad_fragment : WriteTransport → TaskResult → Fragment → Bool
bad_fragment t result fragment =
    not (text_eq fragment.fragment_id (expected_fragment_id t.operation_id result.task_attempt_id))
    || not (is_empty fragment.artifacts)
    || not (eqb fragment.byte_count 0)

-- The comparison of an envelope with its target and attempt.
unfoldable pub envelope_differs :
    Platform → ℤ → WriteTransport → Text → TaskResult → Fragment → CommitEnvelope → Bool
envelope_differs p version t transport_bytes result fragment e =
    not (text_eq e.operation_id t.operation_id)
    || not (e.table_uuid == t.table_uuid)
    || not (e.table_path == t.table_path)
    || not (text_eq e.schema_fingerprint t.schema_fingerprint)
    || not (eqb_ℤ e.schema_id t.schema_id)
    || not (same_bool e.has_snapshot t.has_snapshot)
    || not (eqb_ℤ e.snapshot_id t.snapshot_id)
    || not (eqb_ℤ e.commit_identifier t.commit_identifier)
    || not (text_eq e.query_id result.query_id)
    || not (text_eq e.task_attempt_id result.task_attempt_id)
    || not (
        text_eq e.writer_commit_user
          (worker_commit_user p t.operation_id result.query_id result.task_attempt_id))
    || not (eqb_ℤ e.commit_message_version version)
    || not (text_eq e.serialized_transport transport_bytes)
    || not (eqb e.row_count fragment.row_count)
    || not (eqb e.row_count result.row_count)
