-- ===== src/DistributedInsert/Coordinator.antt =====
-- The coordinator's methods of `PhysicalPaimonInsert`: validation, preparation, the commit of the selected
-- results, and the abort. The calls that change the files of the table are recorded. The mutex around the
-- methods orders them within a process; what other processes do is in the store that each call gives.
use duckdb_paimon.Prelude.{
  Bool, false, not, ◌||◌, String, ◌==◌, Option, none, some, List, [], ◌∷◌, ◌++◌, Map,
}
use duckdb_paimon.Prelude.Int.{ℤ, pos, eqb_ℤ}
use duckdb_paimon.Sql.{Result, catalog_exception, transaction_exception}
use duckdb_paimon.Paimon.{Outcome, Status}
use duckdb_paimon.TablePath.{Text, text_eq}
use duckdb_paimon.Catalog.Backend.{Backend}
use duckdb_paimon.Catalog.TableSet.{TableSet}
use duckdb_paimon.Catalog.Options.{Environment}
use duckdb_paimon.Wire.{Wire}
use duckdb_paimon.DistributedInsert.Actions.{Action, pure, reads, modify, raise_if, ◌>>=◌, ◌>>◌}
use duckdb_paimon.DistributedInsert.Identities.{Platform, coordinator_commit_user}
use duckdb_paimon.DistributedInsert.Transport.{WriteTransport}
use duckdb_paimon.DistributedInsert.Tasks.{WriteInfo, WriteKeys}
use duckdb_paimon.DistributedInsert.DecodeState.{Vane, MessageApi, DecodeState}
use duckdb_paimon.DistributedInsert.Target.{TableCatalog, TargetState, ask, load_target_state}
use duckdb_paimon.DistributedInsert.Operator.{
  WritePlan, PaimonInsert, validate_ctas, coordinator_catalog, schema_differs, snapshot_differs,
}

-- `Abort` and `FilterAndCommit` of a committer, by its commit user; a commit is of one identifier.
pub data Call (Message : Type 0) : Type 0 where
  aborted : Text → List Message → Call Message
  committed : Text → ℤ → List Message → Call Message

-- What the coordinator calls: paimon-cpp's committers, and Vane's resolution of a plan.
pub record CommitApi (b : Backend) (Message : Type 0) : Type 0 where
  -- The status of `CommitContextBuilder` and `FileStoreCommit::Create` for a path, options, a commit user,
  -- and whether conflicts are checked.
  pub create_committer : String → Map String → Text → Bool → Option Status
  pub abort : b.Store → Text → List Message → Option Status × b.Store
  pub filter_and_commit : b.Store → Text → ℤ → List Message → Outcome ℤ × b.Store
  pub resolve_info : WritePlan → Result WriteInfo

pub record CoordinatorState (b : Backend) (Message : Type 0) : Type 0 where
  pub insert : PaimonInsert
  pub store : b.Store
  pub tables : TableSet
  pub calls : List (Call Message)

-- All that is outside of the coordinator.
pub record Outside (b : Backend) (Message : Type 0) : Type 0 where
  pub platform : Platform
  pub env : Environment
  pub keys : WriteKeys
  pub codec : Wire
  pub envelopes : Wire
  pub vane : Vane
  pub messages_api : MessageApi Message
  pub catalog : TableCatalog b
  pub commits : CommitApi b Message

-- A decoding that ended, as a result with the decoded state.
abbrev pub Decoded : Type 0 → Type 0
Decoded Message = Result (Unit {0}) × DecodeState Message

module _ {b : Backend} {Message : Type 0} where
  -- A call of the catalog, which gives the next store.
  abbrev pub on_store : {A : Type 0} → Action b.Store A → Action (CoordinatorState b Message) A
  on_store m s = let (r, store) = m s.store in (r, record s { store = store })

  abbrev pub set_insert :
      (PaimonInsert → PaimonInsert) → Action (CoordinatorState b Message) (Unit {0})
  set_insert f = modify (λ s. record s { insert = f s.insert })

module _ {b : Backend} {Message : Type 0} (o : Outside b Message) where
  abbrev pub load_current : PaimonInsert → Action (CoordinatorState b Message) TargetState
  load_current insert = on_store (
      load_target_state o.catalog o.keys.partition_default_name insert.database_name
        insert.table_name)

  -- `ValidateCTASTargetAbsent`
  unfoldable pub validate_ctas_target_absent :
      PaimonInsert → Action (CoordinatorState b Message) (Unit {0})
  validate_ctas_target_absent insert = do
    reads (λ s. validate_ctas insert.info insert.target.primary_keys)
    exists ← on_store (ask (λ s. o.catalog.table_exists s insert.database_name insert.table_name))
    raise_if exists
        (catalog_exception "Paimon table already exists before distributed CTAS preparation")

  -- The checks of `ValidateTargetBaseline` on the current target.
  unfoldable pub check_baseline :
      PaimonInsert → TargetState → Action (CoordinatorState b Message) (Unit {0})
  check_baseline insert current = do
    raise_if (not (current.table_uuid == insert.target.table_uuid))
        (transaction_exception "Paimon table was replaced after the distributed write was planned")
    raise_if (not (current.table_path == insert.target.table_path))
        (transaction_exception "Paimon table path changed after the distributed write was planned")
    raise_if
        (schema_differs o.platform insert current
          || not (text_eq current.table_schema_json insert.target.table_schema_json))
        (transaction_exception
          "Paimon table schema changed after the distributed write was planned")
    raise_if (snapshot_differs o.platform insert current) (
        transaction_exception
          "Paimon table snapshot changed after the distributed write was planned")

  -- `ValidateTargetBaseline`
  unfoldable pub validate_target_baseline :
      PaimonInsert → Action (CoordinatorState b Message) (Unit {0})
  validate_target_baseline insert = do
    reads (λ s. coordinator_catalog insert.schema)
    current ← load_current insert
    check_baseline insert current

  -- `CapturePreparedCTASTarget`
  unfoldable pub capture_prepared_ctas :
      PaimonInsert → Action (CoordinatorState b Message) (Unit {0})
  capture_prepared_ctas insert = do
    reads (λ s. coordinator_catalog insert.schema)
    current ← load_current insert
    raise_if
        (not (current.table_uuid == insert.target.table_uuid)
          || not (current.table_path == insert.target.table_path)
          || schema_differs o.platform insert current
          || current.has_snapshot
          || not (eqb_ℤ current.snapshot_id (pos 0)))
        (transaction_exception
          "Prepared Paimon table does not match the frozen distributed CTAS definition")
    modify (λ s. record s {
      insert = record s.insert {
        target = record s.insert.target { table_schema_json = current.table_schema_json };
      };
    })

  -- `BestEffortAbortMessages` through `AbortMessages`, whose failure is dropped.
  unfoldable pub abort_with :
      Option Status → Text → List Message → Action (CoordinatorState b Message) (Unit {0})
  abort_with (some e) user messages = pure tt
  abort_with none user messages = modify (λ s. record s {
    store = (o.commits.abort s.store user messages).1;
    calls = s.calls ++ aborted user messages ∷ [];
  })

  unfoldable pub best_effort_abort :
      WriteTransport → Map String → List Message → Action (CoordinatorState b Message) (Unit {0})
  best_effort_abort t options [] = pure tt
  best_effort_abort t options (m ∷ messages) =
      let user = coordinator_commit_user o.platform t.operation_id in
      abort_with (o.commits.create_committer t.table_path options user false) user (m ∷ messages)
