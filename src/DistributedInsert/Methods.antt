-- ===== src/DistributedInsert/Methods.antt =====
-- The coordinator's methods of `PhysicalPaimonInsert`: what validates, prepares, commits and aborts a
-- distributed write. A method is an action on the operator, the store and the record of calls.
use duckdb_paimon.Prelude.{
  ℕ, Bool, true, false, not, String, Option, none, some, List, [], ◌∷◌, ◌++◌, eqb, Map,
}
use duckdb_paimon.Prelude.Int.{ℤ, pos, eqb_ℤ}
use duckdb_paimon.Sql.{Result, ok, throw, io_exception, invalid_input}
use duckdb_paimon.Paimon.{Outcome, value, status}
use duckdb_paimon.Catalog.Backend.{Backend}
use duckdb_paimon.Catalog.SchemaEntry.{CreateTableInfo, create_table}
use duckdb_paimon.Insert.Commit.{require_ok}
use duckdb_paimon.DistributedInsert.Actions.{
  Action, pure, reads, modify, on_throw, raise_if, ◌>>=◌, ◌>>◌,
}
use duckdb_paimon.DistributedInsert.Identities.{coordinator_commit_user}
use duckdb_paimon.DistributedInsert.Transport.{WriteTransport}
use duckdb_paimon.DistributedInsert.Tasks.{WriteInfo, build_runtime_options}
use duckdb_paimon.DistributedInsert.DecodeState.{TaskResult, DecodeState, start}
use duckdb_paimon.DistributedInsert.Decode.{decode_commit_results}
use duckdb_paimon.DistributedInsert.Operator.{
  WritePlan, PaimonInsert, validate_ctas, coordinator_catalog, coordinator_transport,
  validate_coordinator_shape,
}
use duckdb_paimon.DistributedInsert.Coordinator.{
  CoordinatorState, Outside, Decoded, set_insert, validate_ctas_target_absent,
  validate_target_baseline, capture_prepared_ctas, best_effort_abort, committed,
}

module _ {b : Backend} {Message : Type 0} (o : Outside b Message) where
  abbrev validate_shape : PaimonInsert → Result (Unit {0})
  validate_shape = validate_coordinator_shape o.platform o.codec o.keys

  abbrev transport_from : PaimonInsert → Result WriteTransport
  transport_from = coordinator_transport o.platform o.codec o.keys

  -- `WritePlan`
  unfoldable pub write_plan : Action (CoordinatorState b Message) WritePlan
  write_plan = do reads (λ s. validate_shape s.insert); reads (λ s. ok s.insert.plan)

  -- `ValidateDistributedWrite`, by whether the operator has create-table information
  unfoldable pub validate_target :
      PaimonInsert → Option CreateTableInfo → Action (CoordinatorState b Message) (Unit {0})
  validate_target insert none = validate_target_baseline o insert
  validate_target insert (some info) = do
    reads (λ s. validate_ctas insert.info insert.target.primary_keys)
    reads (λ s. coordinator_catalog insert.schema)
    pure tt

  unfoldable pub validate_distributed_write : Action (CoordinatorState b Message) (Unit {0})
  validate_distributed_write = do
    reads (λ s. validate_shape s.insert)
    insert ← reads (λ s. ok s.insert)
    validate_target insert insert.info

  -- `CreateTable` of the schema entry.
  unfoldable pub create_target :
      String → CreateTableInfo → Action (CoordinatorState b Message) (Unit {0})
  create_target schema info s =
      let (created, store, tables) = create_table b schema s.store s.tables info in
      (
        elim created [ ok entry ↦ ok tt | throw e ↦ throw e ],
        record s { store = store; tables = tables },
      )

  -- The target of an INSERT is checked, that of a CREATE TABLE AS is created.
  unfoldable pub prepare_target :
      PaimonInsert → Option CreateTableInfo → Action (CoordinatorState b Message) (Unit {0})
  prepare_target insert none = validate_target_baseline o insert
  prepare_target insert (some info) = do
    reads (λ s. validate_ctas insert.info insert.target.primary_keys)
    schema ← reads (λ s. coordinator_catalog insert.schema)
    validate_ctas_target_absent o insert
    create_target schema.name info
    capture_prepared_ctas o insert

  -- `PrepareDistributedWrite`
  unfoldable pub prepare_distributed_write : Action (CoordinatorState b Message) (Unit {0})
  prepare_distributed_write = do
    reads (λ s. validate_shape s.insert)
    begun ← reads (λ s. ok s.insert.prepare_started)
    raise_if begun (invalid_input "Distributed Paimon write preparation started more than once")
    set_insert (λ i. record i { prepare_started = true })
    insert ← reads (λ s. ok s.insert)
    prepare_target insert insert.info
    set_insert (λ i. record i { target_prepared = true })

  abbrev decode_with : WriteTransport → List TaskResult → Result WriteInfo → Decoded Message
  decode_with t results (throw e) = (throw e, start)
  decode_with t results (ok info) =
      decode_commit_results o.messages_api o.platform t o.envelopes o.vane info o.codec o.keys
        results start

  -- The first `try` block: the plan is resolved and the results are decoded.
  unfoldable pub decode : WritePlan → WriteTransport → List TaskResult → Decoded Message
  decode plan t results = decode_with t results (o.commits.resolve_info plan)

  -- Its handler aborts what was decoded.
  unfoldable pub decoded_or_abort :
      WriteTransport
      → Map String
      → Decoded Message
      → Action (CoordinatorState b Message) (DecodeState Message)
  decoded_or_abort t options (ok u, decoded) = pure decoded
  decoded_or_abort t options (throw e, decoded) =
      on_throw (reads (λ s. throw e)) (best_effort_abort o t options decoded.messages)

  -- The second `try` block behind the validation: whether there is something to commit, and a committer
  -- for it.
  unfoldable pub ready_from :
      WriteTransport → Map String → List Message → ℕ → Action (CoordinatorState b Message) Bool
  ready_from t options [] rows = do
    raise_if (not (eqb rows 0))
        (invalid_input "Distributed Paimon write returned rows without commit messages")
    pure false
  ready_from t options (m ∷ messages) rows = do
    raise_if (eqb rows 0)
        (invalid_input "Distributed Paimon write returned commit messages without rows")
    reads (λ s. require_ok (
        o.commits.create_committer t.table_path options
          (coordinator_commit_user o.platform t.operation_id) true))
    pure true

  -- The second `try` block.
  unfoldable pub ready_to_commit :
      PaimonInsert
      → WriteTransport
      → Map String
      → List Message
      → ℕ
      → Action (CoordinatorState b Message) Bool
  ready_to_commit insert t options messages rows = do
    validate_target_baseline o insert
    ready_from t options messages rows

  unfoldable pub committed_count : Outcome ℤ → Result ℤ
  committed_count (status e) =
      throw (io_exception "Distributed Paimon write commit outcome is unknown")
  committed_count (value n) = ok n

  -- The commit, behind both blocks.
  unfoldable pub commit_messages :
      WriteTransport → List Message → ℕ → Bool → Action (CoordinatorState b Message) ℕ
  commit_messages t messages rows false = pure 0
  commit_messages t messages rows true = do
    let user = coordinator_commit_user o.platform t.operation_id
    outcome ←
        reads (λ s. ok (o.commits.filter_and_commit s.store user t.commit_identifier messages).0)
    modify (λ s. record s {
      store = (o.commits.filter_and_commit s.store user t.commit_identifier messages).1;
      calls = s.calls ++ committed user t.commit_identifier messages ∷ [];
    })
    count ← reads (λ s. committed_count outcome)
    raise_if (not (eqb_ℤ count (pos 1)))
        (io_exception "Distributed Paimon write commit outcome is unknown")
    pure rows

  -- `FinalizeDistributedWrite` from the transport and its options on.
  unfoldable pub commit_results :
      PaimonInsert
      → WriteTransport
      → Map String
      → List TaskResult
      → Action (CoordinatorState b Message) ℕ
  commit_results insert t options results = do
    decoded ← decoded_or_abort t options (decode insert.plan t results)
    ready ←
        on_throw (ready_to_commit insert t options decoded.messages decoded.row_count)
          (best_effort_abort o t options decoded.messages)
    commit_messages t decoded.messages decoded.row_count ready

  -- `FinalizeDistributedWrite`
  unfoldable pub finalize_distributed_write :
      List TaskResult → Action (CoordinatorState b Message) ℕ
  finalize_distributed_write results = do
    reads (λ s. validate_shape s.insert)
    begun ← reads (λ s. ok s.insert.finalize_started)
    raise_if begun (invalid_input "Distributed Paimon write coordinator finalized more than once")
    set_insert (λ i. record i { finalize_started = true })
    insert ← reads (λ s. ok s.insert)
    raise_if (not insert.target_prepared)
        (invalid_input "Distributed Paimon write target was not prepared before finalization")
    t ← reads (λ s. transport_from insert)
    options ← reads (λ s. build_runtime_options o.platform o.env o.keys t none)
    commit_results insert t options results

  unfoldable pub abort_results :
      PaimonInsert
      → WriteTransport
      → Map String
      → List TaskResult
      → Action (CoordinatorState b Message) (Unit {0})
  abort_results insert t options results = do
    decoded ← decoded_or_abort t options (decode insert.plan t results)
    best_effort_abort o t options decoded.messages

  unfoldable pub abort_selected :
      PaimonInsert → List TaskResult → Action (CoordinatorState b Message) (Unit {0})
  abort_selected insert [] = pure tt
  abort_selected insert (r ∷ results) = do
    t ← reads (λ s. transport_from insert)
    options ← reads (λ s. build_runtime_options o.platform o.env o.keys t none)
    abort_results insert t options (r ∷ results)

  -- `AbortDistributedWrite`
  unfoldable pub abort_distributed_write :
      List TaskResult → Action (CoordinatorState b Message) (Unit {0})
  abort_distributed_write results = do
    reads (λ s. validate_shape s.insert)
    insert ← reads (λ s. ok s.insert)
    raise_if insert.finalize_started (
        invalid_input
          "Distributed Paimon write cannot abort after coordinator finalization started")
    abort_selected insert results
