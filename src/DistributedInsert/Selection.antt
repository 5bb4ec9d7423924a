-- ===== src/DistributedInsert/Selection.antt =====
-- The results of all tasks of a query, decoded together: every message arrives, in order, with the sum of
-- the rows.
use duckdb_paimon.Prelude.{
  ◌+◌, ◌≤◌, ◌≡◌, refl, sym, ap, ◌∙◌, false, String, List, [], ◌∷◌, ◌++◌, map, arith, All,
}
use mathlib.Core.Path.{subst}
use mathlib.Core.List.{append-nil, append_assoc}
use duckdb_paimon.Sql.{ok}
use duckdb_paimon.TablePath.{Text}
use duckdb_paimon.DistributedScan.Estimates.{index_maximum}
use duckdb_paimon.Wire.{Wire}
use duckdb_paimon.DistributedInsert.Identities.{Platform}
use duckdb_paimon.DistributedInsert.Transport.{WriteTransport, IsReversible, serialize_transport}
use duckdb_paimon.DistributedInsert.Transport.RoundTrip.{validated}
use duckdb_paimon.DistributedInsert.Tasks.{WriteInfo, WriteKeys}
use duckdb_paimon.DistributedInsert.Worker.{WorkerApi}
use duckdb_paimon.DistributedInsert.DecodeState.{MessageApi, DecodeState}
use duckdb_paimon.DistributedInsert.Handover.{
  FinishedTask, CodecsAgree, onto, marked, fragment_id_of, result_of,
}
use duckdb_paimon.DistributedInsert.Transport.{write_operator_name}
use duckdb_paimon.DistributedInsert.DecodeState.{
  Vane, start, coordinator_contract_differs, with_query, with_attempt, with_logical,
}
use duckdb_paimon.DistributedInsert.Decode.{add_results, decode_commit_results}
use duckdb_paimon.DistributedInsert.Completeness.{sent_filled}
use duckdb_paimon.DistributedInsert.Selectable.{
  all_messages, all_rows, AllFresh, IsSelectable, ComparesSelf, IsOpen, after_result,
  add_result_complete, start-IsOpen, marked_same, after_result-IsOpen,
}

module _ {Writer Message : Type 0} (api : WorkerApi Writer Message)
    (messages_api : MessageApi Message) (p : Platform) (t : WriteTransport) (info : WriteInfo)
    (envelopes : Wire) (codec : Wire) (keys : WriteKeys) (vane : Vane) (query_id : Text) where
  abbrev Selectable : FinishedTask Message → Type 0
  Selectable = IsSelectable api messages_api p t info envelopes codec keys vane query_id

  add_results_complete :
      (tasks : List (FinishedTask Message)) (bytes : Text) (s : DecodeState Message)
      → CodecsAgree api messages_api
      → IsReversible codec t
      → ComparesSelf api messages_api p t info envelopes codec keys vane query_id
      → serialize_transport p keys.catalog.table codec t ≡ ok bytes
      → All Selectable tasks
      → IsOpen api messages_api p t info envelopes codec keys vane query_id s
      → AllFresh s.task_attempt_ids s.logical_task_ids s.canonical_messages tasks
      → s.row_count + all_rows tasks ≤ index_maximum
      → (d : DecodeState Message) × (add_results messages_api p t envelopes vane info bytes
            (map (result_of info) tasks)
            s
          ≡ (ok tt, d))
        × (d.duplicate_logical_task_id ≡ [])
        × (d.messages ≡ s.messages ++ all_messages tasks)
        × (d.row_count ≡ s.row_count + all_rows tasks)
  unfolding add_results after_result with_logical with_attempt with_query
  add_results_complete [] bytes s agree reversible self sent all open_state fresh fits =
      (s, refl, open_state.no_duplicate, sym (append-nil s.messages), omega arith)
  add_results_complete (w ∷ tasks) bytes s agree reversible self sent (h, all) open_state
        (new, new_logical, texts, fresh) fits =
      let before =
        with_logical w.logical
          (with_attempt w.task.task_attempt_id (with_query w.task.query_id s)) in
      let (q, dup, att, log, can, mes, row) =
        marked_same api messages_api p t info envelopes codec keys vane query_id w.messages
          (fragment_id_of t w) before in
      let next = after_result api messages_api p t info envelopes codec keys vane query_id w s in
      let one =
        add_result_complete api messages_api p t info envelopes codec keys vane query_id w bytes s
          agree reversible self sent h open_state new texts (omega arith) in
      let m = marked w.messages (fragment_id_of t w) before in
      let fresh1 =
        subst
          (λ xs.
            AllFresh xs (w.logical ∷ s.logical_task_ids) (onto w.texts s.canonical_messages) tasks)
          (sym att) fresh in
      let fresh2 =
        subst (λ xs. AllFresh m.task_attempt_ids xs (onto w.texts s.canonical_messages) tasks)
          (sym log) fresh1 in
      let fresh3 =
        subst (λ xs. AllFresh m.task_attempt_ids m.logical_task_ids (onto w.texts xs) tasks)
          (sym can) fresh2 in
      let (d, rest, none_twice, messages, rows) =
        add_results_complete tasks bytes next agree reversible self sent all
          (after_result-IsOpen api messages_api p t info envelopes codec keys vane query_id w s h
            open_state new_logical)
          fresh3 (omega (arith, row)) in
      (
        d,
        rw one rest,
        none_twice,
        messages
            ∙ ap (λ x. (x ++ w.messages) ++ all_messages tasks) mes
            ∙ append_assoc s.messages w.messages (all_messages tasks),
        omega (arith, rows, row),
      )

  -- For tasks of one query that the workers have handed over, of the coordinator's own bind, with codecs
  -- that agree, and where no attempt, logical task or canonical message comes twice and the rows fit in an
  -- idx_t: the results are decoded without an exception, to the messages of all tasks in order and the
  -- sum of their rows. The query is not empty, and the plan is resolved as it was registered.
  pub decode_commit_results_complete :
      (tasks : List (FinishedTask Message)) (bytes : Text)
      → CodecsAgree api messages_api
      → IsReversible codec t
      → ComparesSelf api messages_api p t info envelopes codec keys vane query_id
      → serialize_transport p keys.catalog.table codec t ≡ ok bytes
      → ((name : String)
          → write_operator_name t.write_kind ≡ ok name
          → coordinator_contract_differs info name ≡ false)
      → All Selectable tasks
      → AllFresh [] [] [] tasks
      → all_rows tasks ≤ index_maximum
      → (d : DecodeState Message) × (decode_commit_results messages_api p t envelopes vane info
            codec keys
            (map (result_of info) tasks)
            start
          ≡ (ok tt, d))
        × (d.messages ≡ all_messages tasks)
        × (d.row_count ≡ all_rows tasks)
  unfolding decode_commit_results
  decode_commit_results_complete tasks bytes agree reversible self sent contract all fresh fits =
      let (valid, sent_some) =
        sent_filled api messages_api p t info envelopes codec keys bytes reversible sent in
      let (complete, (name, named), snapshot, parts) = validated p keys.catalog.table t valid in
      let (d, e, none_twice, messages, rows) =
        add_results_complete tasks bytes start agree reversible self sent all
          (start-IsOpen api messages_api p t info envelopes codec keys vane query_id) fresh
          (omega arith) in
      (d, rw (named, contract name named, sent, e, none_twice) refl, messages, omega (arith, rows))
