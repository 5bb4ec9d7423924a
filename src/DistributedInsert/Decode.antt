-- ===== src/DistributedInsert/Decode.antt =====
-- `ValidateResolvedInfo` and `DecodeCommitResults`: the coordinator checks the results of the selected
-- tasks and gathers their commit messages. What was decoded stays decoded when an exception is thrown.
use duckdb_paimon.Prelude.{
  true, not, ◌||◌, Option, none, some, List, [], ◌∷◌, eqb, ltb, is_empty, length,
}
use duckdb_paimon.Sql.{Result, ok, throw, invalid_input}
use duckdb_paimon.Paimon.{Outcome, value, status}
use duckdb_paimon.TablePath.{Text}
use duckdb_paimon.Wire.{Wire}
use duckdb_paimon.DistributedInsert.Actions.{Action, pure, reads, modify, raise_if, ◌>>=◌, ◌>>◌}
use duckdb_paimon.DistributedInsert.Identities.{Platform, checked_add, logical_task_identity}
use duckdb_paimon.DistributedInsert.Transport.{
  WriteTransport, write_operator_name, serialize_transport,
}
use duckdb_paimon.DistributedInsert.CommitEnvelope.{CommitEnvelope, deserialize_envelope}
use duckdb_paimon.DistributedInsert.Tasks.{WriteInfo, Fragment, WriteKeys}
use duckdb_paimon.DistributedInsert.DecodeState.{
  TaskResult, Vane, MessageApi, DecodeState, seen, coordinator_contract_differs, codec_limit,
  is_inconsistent, with_query, with_attempt, with_logical, with_fragment, with_message, with_rows,
  bad_fragment, envelope_differs,
}

unfoldable pub decoded_list :
    {Message : Type 0} → Outcome (List (Option Message)) → Result (List (Option Message))
decoded_list (status e) =
    throw (invalid_input "Failed to deserialize distributed Paimon commit messages")
decoded_list (value messages) = ok messages

unfoldable pub canonical_of : Outcome Text → Result Text
canonical_of (status e) =
    throw (invalid_input "Failed to canonicalize distributed Paimon commit message")
canonical_of (value text) = ok text

module _ {Message : Type 0} (messages_api : MessageApi Message) where
  -- The loop over the messages of a fragment.
  unfoldable pub add_messages : List (Option Message) → Action (DecodeState Message) (Unit {0})
  add_messages [] = pure tt
  add_messages (none ∷ messages) =
      raise_if true
        (invalid_input "Distributed Paimon INSERT commit fragment contains an empty message")
  add_messages (some m ∷ messages) = do
    canonical ← reads (λ s. canonical_of (messages_api.serialize m))
    known ← reads (λ s. ok s.canonical_messages)
    raise_if (seen canonical known)
        (invalid_input "Distributed Paimon INSERT selected a duplicate commit message")
    modify (with_message canonical m)
    add_messages messages

  module _ (p : Platform) (t : WriteTransport) where
    -- An envelope that was read, from its comparison with the target on.
    unfoldable pub add_envelope :
        Text → TaskResult → Fragment → CommitEnvelope → Action (DecodeState Message) (Unit {0})
    add_envelope transport_bytes result fragment e = do
      raise_if (envelope_differs p messages_api.current_version t transport_bytes result fragment e)
          (invalid_input
            "Distributed Paimon INSERT commit fragment does not match its target or attempt")
      raise_if (ltb codec_limit (length e.serialized_messages))
          (invalid_input "Distributed Paimon INSERT commit fragment exceeds the Paimon codec limit")
      messages ← reads (λ s.
          decoded_list
            (messages_api.deserialize_list e.commit_message_version e.serialized_messages))
      raise_if (not (eqb (length messages) e.message_count) || is_empty messages) (
          invalid_input
            "Distributed Paimon INSERT commit-message count does not match its envelope")
      add_messages messages
      rows ← reads (λ s.
          checked_add s.row_count e.row_count
            "Distributed Paimon INSERT selected row count exceeds idx_t")
      modify (with_rows rows)

    module _ (envelopes : Wire) where
      -- The fragments of a result: none, or one.
      unfoldable pub add_fragments :
          Text → TaskResult → List Fragment → Action (DecodeState Message) (Unit {0})
      add_fragments transport_bytes result [] =
          raise_if (not (eqb result.row_count 0) || not (eqb result.byte_count 0))
            (invalid_input "Empty distributed Paimon INSERT task result has non-zero counts")
      add_fragments transport_bytes result (fragment ∷ []) = do
        known ← reads (λ s. ok s.fragment_ids)
        raise_if (bad_fragment t result fragment || seen fragment.fragment_id known)
            (invalid_input "Distributed Paimon INSERT task result has invalid fragment metadata")
        modify (with_fragment fragment.fragment_id)
        e ← reads (λ s. deserialize_envelope envelopes p fragment.payload)
        add_envelope transport_bytes result fragment e
      add_fragments transport_bytes result (fragment ∷ other ∷ fragments) = raise_if true (
          invalid_input
            "Distributed Paimon INSERT task result must contain at most one commit fragment")

      module _ (vane : Vane) (info : WriteInfo) where
        -- The loop's body on one result.
        unfoldable pub add_result : Text → TaskResult → Action (DecodeState Message) (Unit {0})
        add_result transport_bytes result = do
          reads (λ s. vane.validate_result result)
          raise_if
              (not (vane.same_capability result.capability info.capability)
                || not (vane.same_codec result.fragment_codec info.fragment_codec))
              (invalid_input
                "Distributed Paimon INSERT task result does not match its coordinator contract")
          query ← reads (λ s. ok s.query_id)
          raise_if (is_inconsistent query result.query_id) (
              invalid_input
                "Distributed Paimon INSERT selected results have inconsistent query identities")
          modify (with_query result.query_id)
          attempts ← reads (λ s. ok s.task_attempt_ids)
          raise_if (seen result.task_attempt_id attempts)
              (invalid_input "Distributed Paimon INSERT selected task attempt more than once")
          modify (with_attempt result.task_attempt_id)
          logical ← reads (λ s. logical_task_identity p result.query_id result.task_attempt_id)
          modify (with_logical logical)
          add_fragments transport_bytes result result.fragments

        unfoldable pub add_results :
            Text → List TaskResult → Action (DecodeState Message) (Unit {0})
        add_results transport_bytes [] = pure tt
        add_results transport_bytes (result ∷ results) = do
          add_result transport_bytes result
          add_results transport_bytes results

        -- `DecodeCommitResults`
        unfoldable pub decode_commit_results :
            Wire → WriteKeys → List TaskResult → Action (DecodeState Message) (Unit {0})
        decode_commit_results codec keys results = do
          name ← reads (λ s. write_operator_name t.write_kind)
          raise_if (coordinator_contract_differs info name) (
              invalid_input
                "Distributed Paimon write coordinator contract does not match its registration")
          transport_bytes ← reads (λ s. serialize_transport p keys.catalog.table codec t)
          add_results transport_bytes results
          duplicate ← reads (λ s. ok s.duplicate_logical_task_id)
          raise_if (not (is_empty duplicate)) (
              invalid_input
                "Distributed Paimon INSERT selected multiple attempts for Vane logical task")
