-- ===== src/DistributedInsert/Quiet.antt =====
-- The parts of the coordinator's methods that change no file of the table but by an abort, and leave alone
-- whether the commit was begun.
use duckdb_paimon.Prelude.{
  ℕ, ◌≡◌, Bool, true, false, String, Option, none, some, List, [], ◌∷◌, Map, arith,
}
use duckdb_paimon.Sql.{LogicalType}
use duckdb_paimon.Catalog.Backend.{Backend}
use duckdb_paimon.Catalog.SchemaEntry.{CreateTableInfo}
use duckdb_paimon.DistributedInsert.Transport.{WriteTransport}
use duckdb_paimon.DistributedInsert.Target.{TargetState}
use duckdb_paimon.DistributedInsert.Operator.{PaimonInsert}
use duckdb_paimon.DistributedInsert.Coordinator.{
  Call, CoordinatorState, Outside, validate_ctas_target_absent, check_baseline,
  validate_target_baseline, capture_prepared_ctas,
}
use duckdb_paimon.DistributedInsert.Methods.{
  write_plan, validate_target, validate_distributed_write, create_target, prepare_target,
  prepare_distributed_write, ready_from, ready_to_commit,
}
use duckdb_paimon.DistributedInsert.Planning.{
  Planner, plan_ctas, plan_insert, plan_target, initialize_distributed_write, provide,
  select_worker_plan, get_task_provider, set_context,
}

module _ {b : Backend} {Message : Type 0} (o : Outside b Message) where
  -- The calls so far, and whether the commit was begun.
  abbrev pub At : List (Call Message) → Bool → CoordinatorState b Message → Type 0
  At calls begun s = (s.calls ≡ calls) × (s.insert.finalize_started ≡ begun)

  module _ (calls : List (Call Message)) (begun : Bool) where
    abbrev P : CoordinatorState b Message → Type 0
    P = At calls begun

    check_baseline-keeps :
        (insert : PaimonInsert) (current : TargetState) (s : CoordinatorState b Message)
        → P s
        → P (check_baseline o insert current s).1
    unfolding check_baseline
    check_baseline-keeps insert current s h = ground arith

    pub validate_target_baseline-keeps :
        (insert : PaimonInsert) (s : CoordinatorState b Message)
        → P s
        → P (validate_target_baseline o insert s).1
    unfolding validate_target_baseline
    validate_target_baseline-keeps insert s h = grind (arith, check_baseline-keeps)

    validate_ctas_target_absent-keeps :
        (insert : PaimonInsert) (s : CoordinatorState b Message)
        → P s
        → P (validate_ctas_target_absent o insert s).1
    unfolding validate_ctas_target_absent
    validate_ctas_target_absent-keeps insert s h = ground arith

    capture_prepared_ctas-keeps :
        (insert : PaimonInsert) (s : CoordinatorState b Message)
        → P s
        → P (capture_prepared_ctas o insert s).1
    unfolding capture_prepared_ctas
    capture_prepared_ctas-keeps insert s h = ground arith

    create_target-keeps :
        (schema : String) (info : CreateTableInfo) (s : CoordinatorState b Message)
        → P s
        → P (create_target o schema info s).1
    unfolding create_target
    create_target-keeps schema info s h = h

    prepare_target-keeps :
        (insert : PaimonInsert) (info : Option CreateTableInfo) (s : CoordinatorState b Message)
        → P s
        → P (prepare_target o insert info s).1
    unfolding prepare_target
    prepare_target-keeps insert none s h = validate_target_baseline-keeps insert s h
    prepare_target-keeps insert (some info) s h =
        grind (
          arith, validate_ctas_target_absent-keeps, create_target-keeps,
          capture_prepared_ctas-keeps,
        )

    pub prepare_distributed_write-keeps :
        (s : CoordinatorState b Message) → P s → P (prepare_distributed_write o s).1
    unfolding prepare_distributed_write
    prepare_distributed_write-keeps s h = grind (arith, prepare_target-keeps)

    validate_target-keeps :
        (insert : PaimonInsert) (info : Option CreateTableInfo) (s : CoordinatorState b Message)
        → P s
        → P (validate_target o insert info s).1
    unfolding validate_target
    validate_target-keeps insert none s h = validate_target_baseline-keeps insert s h
    validate_target-keeps insert (some info) s h = ground arith

    pub validate_distributed_write-keeps :
        (s : CoordinatorState b Message) → P s → P (validate_distributed_write o s).1
    unfolding validate_distributed_write
    validate_distributed_write-keeps s h = grind (arith, validate_target-keeps)

    pub write_plan-keeps : (s : CoordinatorState b Message) → P s → P (write_plan o s).1
    unfolding write_plan
    write_plan-keeps s h = ground arith

    pub ready_to_commit-keeps :
        (insert : PaimonInsert) (t : WriteTransport) (options : Map String)
        (messages : List Message) (rows : ℕ) (s : CoordinatorState b Message)
        → P s
        → P (ready_to_commit o insert t options messages rows s).1
    unfolding ready_to_commit ready_from
    ready_to_commit-keeps insert t options [] rows s h =
        grind (arith, validate_target_baseline-keeps)
    ready_to_commit-keeps insert t options (m ∷ messages) rows s h =
        grind (arith, validate_target_baseline-keeps)

  module _ (planner : Planner) (calls : List (Call Message)) (begun : Bool) where
    plan_ctas-keeps :
        (insert : PaimonInsert) (types : List LogicalType) (info : CreateTableInfo)
        (s : CoordinatorState b Message)
        → At calls begun s
        → At calls begun (plan_ctas o planner insert types info s).1
    unfolding plan_ctas
    plan_ctas-keeps insert types info s h = ground arith

    plan_insert-keeps :
        (insert : PaimonInsert) (types : List LogicalType) (s : CoordinatorState b Message)
        → At calls begun s
        → At calls begun (plan_insert o planner insert types s).1
    unfolding plan_insert
    plan_insert-keeps insert types s h = ground arith

    plan_target-keeps :
        (insert : PaimonInsert) (types : List LogicalType) (info : Option CreateTableInfo)
        (s : CoordinatorState b Message)
        → At calls begun s
        → At calls begun (plan_target o planner insert types info s).1
    unfolding plan_target
    plan_target-keeps insert types none s h = plan_insert-keeps insert types s h
    plan_target-keeps insert types (some info) s h = plan_ctas-keeps insert types info s h

    initialize_distributed_write-keeps :
        (types : List LogicalType) (s : CoordinatorState b Message)
        → At calls begun s
        → At calls begun (initialize_distributed_write o planner types s).1
    unfolding initialize_distributed_write
    initialize_distributed_write-keeps types s h = grind (arith, plan_target-keeps)

    provide-keeps :
        (children : List (List LogicalType)) (initialized : Bool) (s : CoordinatorState b Message)
        → At calls begun s
        → At calls begun (provide o planner children initialized s).1
    unfolding provide
    provide-keeps [] initialized s h = h
    provide-keeps (types ∷ []) true s h = h
    provide-keeps (types ∷ []) false s h = initialize_distributed_write-keeps types s h
    provide-keeps (types ∷ others ∷ children) initialized s h = h

    pub get_task_provider-keeps :
        (s : CoordinatorState b Message)
        → At calls begun s
        → At calls begun (get_task_provider o planner s).1
    unfolding get_task_provider select_worker_plan
    get_task_provider-keeps s h = grind (arith, provide-keeps)

  pub set_context-keeps :
      (calls : List (Call Message)) (begun : Bool) (s : CoordinatorState b Message)
      → At calls begun s
      → At calls begun (set_context s).1
  unfolding set_context
  set_context-keeps calls begun s h = ground arith
