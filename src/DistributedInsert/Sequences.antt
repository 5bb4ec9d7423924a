-- ===== src/DistributedInsert/Sequences.antt =====
-- The methods of one operator in any order and number, however each of them ends, with other processes
-- changing the store in between.
use duckdb_paimon.Prelude.{◌≡◌, refl, sym, ◌∙◌, true, false, List, [], ◌∷◌, ◌++◌, ◌⊎◌, inl, inr}
use mathlib.Core.Path.{subst}
use duckdb_paimon.TablePath.{Text}
use duckdb_paimon.Catalog.Backend.{Backend}
use duckdb_paimon.DistributedInsert.DecodeState.{TaskResult}
use duckdb_paimon.DistributedInsert.Coordinator.{
  Call, aborted, committed, CoordinatorState, Outside,
}
use duckdb_paimon.DistributedInsert.Methods.{
  write_plan, validate_distributed_write, prepare_distributed_write, finalize_distributed_write,
  abort_distributed_write,
}
use duckdb_paimon.DistributedInsert.Planning.{
  Planner, set_context, get_task_provider, build_pipelines,
}
use duckdb_paimon.DistributedInsert.Quiet.{At}

-- A call of a method, or a change of the store from elsewhere.
pub data Event (b : Backend) : Type 0 where
  context_set pipelines_built planned validated prepared : Event b
  provided : Planner → Event b
  finalized : List TaskResult → Event b
  abandoned : List TaskResult → Event b
  elsewhere : b.Store → Event b

module _ {Message : Type 0} where
  -- No call of a commit.
  abbrev pub OnlyAborts : List (Call Message) → Type 0
  OnlyAborts [] = Unit
  OnlyAborts (aborted user messages ∷ calls) = OnlyAborts calls
  OnlyAborts (committed user id messages ∷ calls) = ⊥

  -- At most one call of a commit, and no call behind it.
  abbrev pub CommitLast : List (Call Message) → Type 0
  CommitLast [] = Unit
  CommitLast (aborted user messages ∷ calls) = CommitLast calls
  CommitLast (committed user id messages ∷ calls) = calls ≡ []

  pub only_last : (calls : List (Call Message)) → OnlyAborts calls → CommitLast calls
  only_last [] h = tt
  only_last (aborted user messages ∷ calls) h = only_last calls h
  only_last (committed user id messages ∷ calls) h = absurd h

  pub only_append :
      (calls : List (Call Message)) (user : Text) (messages : List Message)
      → OnlyAborts calls
      → OnlyAborts (calls ++ aborted user messages ∷ [])
  only_append [] user messages h = tt
  only_append (aborted u ms ∷ calls) user messages h = only_append calls user messages h
  only_append (committed u id ms ∷ calls) user messages h = absurd h

  pub last_append :
      (calls : List (Call Message)) (c : Call Message)
      → OnlyAborts calls
      → CommitLast (calls ++ c ∷ [])
  last_append [] (aborted user messages) h = tt
  last_append [] (committed user id messages) h = refl
  last_append (aborted u ms ∷ calls) c h = last_append calls c h
  last_append (committed u id ms ∷ calls) c h = absurd h

module _ {b : Backend} {Message : Type 0} (o : Outside b Message) where
  -- The state after an event; an exception goes to the caller.
  unfoldable pub happen : Event b → CoordinatorState b Message → CoordinatorState b Message
  happen context_set s = (set_context s).1
  happen pipelines_built s = (build_pipelines s).1
  happen planned s = (write_plan o s).1
  happen validated s = (validate_distributed_write o s).1
  happen prepared s = (prepare_distributed_write o s).1
  happen (provided planner) s = (get_task_provider o planner s).1
  happen (finalized results) s = (finalize_distributed_write o results s).1
  happen (abandoned results) s = (abort_distributed_write o results s).1
  happen (elsewhere store) s = record s { store = store }

  unfoldable pub run_events :
      List (Event b) → CoordinatorState b Message → CoordinatorState b Message
  run_events [] s = s
  run_events (e ∷ events) s = run_events events (happen e s)

  -- Before the finalization there were only aborts, and behind a commit there is nothing.
  abbrev pub IsClosing : CoordinatorState b Message → Type 0
  IsClosing s =
      ((s.insert.finalize_started ≡ false) × OnlyAborts s.calls)
      ⊎ ((s.insert.finalize_started ≡ true) × CommitLast s.calls)

  pub quiet-IsClosing :
      (s s' : CoordinatorState b Message)
      → At o s.calls s.insert.finalize_started s'
      → IsClosing s
      → IsClosing s'
  quiet-IsClosing s s' (calls, flag) (inl (open_still, only)) =
      inl (flag ∙ open_still, subst OnlyAborts (sym calls) only)
  quiet-IsClosing s s' (calls, flag) (inr (started, last)) =
      inr (flag ∙ started, subst CommitLast (sym calls) last)
