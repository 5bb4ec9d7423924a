-- ===== src/DistributedInsert/Closing.antt =====
-- The calls of an operator over any sequence of events: at most one commit, which is the last call.
use duckdb_paimon.Prelude.{
  ℕ, ◌≡◌, refl, sym, false, Option, none, some, List, [], ◌∷◌, Map, arith, inl, inr, String,
}
use mathlib.Core.Path.{subst}
use duckdb_paimon.Sql.{Result, ok, throw}
use duckdb_paimon.Paimon.{Status}
use duckdb_paimon.Catalog.Backend.{Backend}
use duckdb_paimon.DistributedInsert.Actions.{next_of, reads-keeps, check-keeps}
use duckdb_paimon.DistributedInsert.Identities.{coordinator_commit_user}
use duckdb_paimon.DistributedInsert.Transport.{WriteTransport}
use duckdb_paimon.DistributedInsert.Tasks.{build_runtime_options}
use duckdb_paimon.DistributedInsert.DecodeState.{TaskResult}
use duckdb_paimon.DistributedInsert.Operator.{
  PaimonInsert, coordinator_transport, validate_coordinator_shape,
}
use duckdb_paimon.DistributedInsert.Coordinator.{
  Call, CoordinatorState, Outside, Decoded, abort_with, best_effort_abort,
}
use duckdb_paimon.DistributedInsert.Methods.{
  write_plan, validate_distributed_write, prepare_distributed_write, decode, decoded_or_abort,
  abort_results, abort_selected, abort_distributed_write,
}
use duckdb_paimon.DistributedInsert.Planning.{set_context, get_task_provider, build_pipelines}
use duckdb_paimon.DistributedInsert.Quiet.{
  prepare_distributed_write-keeps, validate_distributed_write-keeps, write_plan-keeps,
  get_task_provider-keeps, set_context-keeps,
}
use duckdb_paimon.DistributedInsert.Commitment.{finalize_distributed_write-Finalized}
use duckdb_paimon.DistributedInsert.Outcomes.{Finalized, refused, cleaned, empty, done, unknown}
use duckdb_paimon.DistributedInsert.Baseline.{ComparesTypes}
use duckdb_paimon.DistributedInsert.Sequences.{
  Event, context_set, pipelines_built, planned, validated, prepared, provided, finalized, abandoned,
  elsewhere, OnlyAborts, CommitLast, only_last, only_append, last_append, happen, run_events,
  IsClosing, quiet-IsClosing,
}
use duckdb_paimon.DistributedInsert.Beginning.{finalize-begins, finalize-again, abort-again}

module _ {b : Backend} {Message : Type 0} (o : Outside b Message) where
  -- An abort before the finalization.
  abbrev Aborting : CoordinatorState b Message → Type 0
  Aborting s = (s.insert.finalize_started ≡ false) × OnlyAborts s.calls

  best_effort_abort-Aborting :
      (t : WriteTransport) (options : Map String) (messages : List Message)
      (s : CoordinatorState b Message)
      → Aborting s
      → Aborting (best_effort_abort o t options messages s).1
  unfolding best_effort_abort abort_with
  best_effort_abort-Aborting t options [] s h = h
  best_effort_abort-Aborting t options (m ∷ messages) s h = by_committer (
      o.commits.create_committer t.table_path options
        (coordinator_commit_user o.platform t.operation_id) false)
    where
      by_committer :
          (c : Option Status)
          → Aborting
              (abort_with o c
                (coordinator_commit_user o.platform t.operation_id)
                (m ∷ messages)
                s).1
      by_committer none = (h.0, only_append s.calls _ (m ∷ messages) h.1)
      by_committer (some e) = h

  abort_results-Aborting :
      (insert : PaimonInsert) (t : WriteTransport) (options : Map String)
      (results : List TaskResult) (s : CoordinatorState b Message)
      → Aborting s
      → Aborting (abort_results o insert t options results s).1
  unfolding abort_results decoded_or_abort
  abort_results-Aborting insert t options results s h = by_decoding (decode o insert.plan t results)
    where
      by_decoding :
          (x : Decoded Message)
          → Aborting
              (next_of
                (decoded_or_abort o t options x s)
                (λ decoded. best_effort_abort o t options decoded.messages)).1
      by_decoding (throw e, decoded) = best_effort_abort-Aborting t options decoded.messages s h
      by_decoding (ok u, decoded) = best_effort_abort-Aborting t options decoded.messages s h

  abort_distributed_write-Aborting :
      (results : List TaskResult) (s : CoordinatorState b Message)
      → Aborting s
      → Aborting (abort_distributed_write o results s).1
  unfolding abort_distributed_write abort_selected
  abort_distributed_write-Aborting [] s h = ground arith
  abort_distributed_write-Aborting (r ∷ results) s h =
      reads-keeps Aborting (validate_coordinator_shape o.platform o.codec o.keys s.insert) s _ h
        (λ u e. check-keeps Aborting s.insert.finalize_started _ s _ h (λ first.
          reads-keeps Aborting (coordinator_transport o.platform o.codec o.keys s.insert) s _ h
            (λ t own.
              reads-keeps Aborting (build_runtime_options o.platform o.env o.keys t none) s _ h
                (λ options e'. abort_results-Aborting s.insert t options (r ∷ results) s h))))

  Finalized-last :
      {s : CoordinatorState b Message} {results : List TaskResult} {r : Result ℕ}
      {calls : List (Call Message)}
      → Finalized o s results r calls
      → OnlyAborts s.calls
      → CommitLast calls
  Finalized-last {s = s} (refused e) h = only_last s.calls h
  Finalized-last {s = s} (cleaned e t ended decoded all) h = last_append s.calls _ h
  Finalized-last {s = s} empty h = only_last s.calls h
  Finalized-last {s = s} (done t decoded checked) h = last_append s.calls _ h
  Finalized-last {s = s} (unknown e t decoded checked) h = last_append s.calls _ h

  happen-IsClosing :
      (types : ComparesTypes o.platform) (e : Event b) (s : CoordinatorState b Message)
      → IsClosing o s
      → IsClosing o (happen o e s)
  unfolding happen build_pipelines
  happen-IsClosing types context_set s h =
      quiet-IsClosing o s (set_context s).1
        (set_context-keeps o s.calls s.insert.finalize_started s (refl, refl)) h
  happen-IsClosing types pipelines_built s h = ground arith
  happen-IsClosing types planned s h =
      quiet-IsClosing o s (write_plan o s).1
        (write_plan-keeps o s.calls s.insert.finalize_started s (refl, refl)) h
  happen-IsClosing types validated s h =
      quiet-IsClosing o s (validate_distributed_write o s).1
        (validate_distributed_write-keeps o s.calls s.insert.finalize_started s (refl, refl)) h
  happen-IsClosing types prepared s h =
      quiet-IsClosing o s (prepare_distributed_write o s).1
        (prepare_distributed_write-keeps o s.calls s.insert.finalize_started s (refl, refl)) h
  happen-IsClosing types (provided planner) s h =
      quiet-IsClosing o s (get_task_provider o planner s).1
        (get_task_provider-keeps o planner s.calls s.insert.finalize_started s (refl, refl)) h
  happen-IsClosing types (finalized results) s (inr (started, last)) =
      subst (IsClosing o) (sym (finalize-again o results s started)) (inr (started, last))
  happen-IsClosing types (finalized results) s (inl (open_still, only)) =
      elim (finalize-begins o results s) [
        | inl same ↦ subst (IsClosing o) (sym same) (inl (open_still, only))
        | inr started ↦
            inr (
              started,
              Finalized-last (finalize_distributed_write-Finalized o s results types) only,
            )
      ]
  happen-IsClosing types (abandoned results) s (inr (started, last)) =
      subst (IsClosing o) (sym (abort-again o results s started)) (inr (started, last))
  happen-IsClosing types (abandoned results) s (inl h) =
      inl (abort_distributed_write-Aborting results s h)
  happen-IsClosing types (elsewhere store) s h = h

  run_events-IsClosing :
      (types : ComparesTypes o.platform) (events : List (Event b)) (s : CoordinatorState b Message)
      → IsClosing o s
      → IsClosing o (run_events o events s)
  unfolding run_events
  run_events-IsClosing types [] s h = h
  run_events-IsClosing types (e ∷ events) s h =
      run_events-IsClosing types events (happen o e s) (happen-IsClosing types e s h)

  -- For an operator whose finalization has not begun, with no call made so far: however its methods
  -- are called, in any order and number, with the store changed from elsewhere in between, there is at most
  -- one call of a commit, and after it no other call, so nothing that may be committed is aborted.
  pub run_events-CommitLast :
      (types : ComparesTypes o.platform) (events : List (Event b)) (s : CoordinatorState b Message)
      → s.insert.finalize_started ≡ false
      → s.calls ≡ []
      → CommitLast (run_events o events s).calls
  run_events-CommitLast types events s first none_made =
      elim (run_events-IsClosing types events s
        (inl (first, subst OnlyAborts (sym none_made) tt))) [
          | inl (open_still, only) ↦ only_last (run_events o events s).calls only
          | inr (started, last) ↦ last
        ]
