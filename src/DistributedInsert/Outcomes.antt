-- ===== src/DistributedInsert/Outcomes.antt =====
-- The ends of a finalization, and which of them an abort and a commit are.
use duckdb_paimon.Prelude.{
  ℕ, String, ◌≡◌, ◌≢◌, sym, true, false, not, Option, none, some, List, [], ◌∷◌, ◌++◌, Map,
  is_empty,
}
use mathlib.Core.Path.{subst}
use duckdb_paimon.Prelude.Int.{pos, eqb_ℤ}
use duckdb_paimon.Sql.{Exception, Result, ok, throw, io_exception}
use duckdb_paimon.Paimon.{Status}
use duckdb_paimon.Catalog.Backend.{Backend}
use duckdb_paimon.DistributedInsert.Actions.{reads-cases, check-cases}
use duckdb_paimon.DistributedInsert.Identities.{coordinator_commit_user}
use duckdb_paimon.DistributedInsert.Transport.{WriteTransport}
use duckdb_paimon.DistributedInsert.DecodeState.{TaskResult, DecodeState}
use duckdb_paimon.DistributedInsert.Target.{TargetState}
use duckdb_paimon.DistributedInsert.Operator.{PaimonInsert, coordinator_transport}
use duckdb_paimon.DistributedInsert.Coordinator.{
  Call, aborted, committed, CoordinatorState, Outside, load_current, abort_with, best_effort_abort,
}
use duckdb_paimon.DistributedInsert.Methods.{decode, committed_count, commit_messages}
use duckdb_paimon.DistributedInsert.Baseline.{Unchanged}

module _ {b : Backend} {Message : Type 0} (o : Outside b Message) where
  -- The operator once its finalization has begun.
  abbrev pub begun : PaimonInsert → PaimonInsert
  begun insert = record insert { finalize_started = true }

  -- What is true where `FilterAndCommit` is called: it is the first finalization of a prepared target, the
  -- results were decoded, and the table was read and is the planned one.
  pub record Checked (s : CoordinatorState b Message) (results : List TaskResult)
      (t : WriteTransport) (decoded : DecodeState Message) : Type 0 where
    pub first : s.insert.finalize_started ≡ false
    pub prepared : s.insert.target_prepared ≡ true
    pub own : coordinator_transport o.platform o.codec o.keys (begun s.insert) ≡ ok t
    pub all_decoded : decode o s.insert.plan t results ≡ (ok tt, decoded)
    pub some_messages : is_empty decoded.messages ≡ false
    pub some_rows : decoded.row_count ≢ 0
    pub current : TargetState
    pub before : CoordinatorState b Message
    pub after : CoordinatorState b Message
    pub read : load_current o (begun s.insert) before ≡ (ok current, after)
    pub unchanged : Unchanged (begun s.insert) current

  abbrev pub commit_call : WriteTransport → DecodeState Message → Call Message
  commit_call t decoded =
      committed (coordinator_commit_user o.platform t.operation_id) t.commit_identifier
        decoded.messages

  abbrev pub abort_call : WriteTransport → DecodeState Message → Call Message
  abort_call t decoded =
      aborted (coordinator_commit_user o.platform t.operation_id) decoded.messages

  -- The ends of a finalization, by its result and the calls after it.
  pub data Finalized (s : CoordinatorState b Message) (results : List TaskResult)
      : Result ℕ → List (Call Message) → Type 0 where
    -- An exception, and nothing was called.
    refused : (e : Exception) → Finalized s results (throw e) s.calls
    -- An exception before the commit, and what was decoded of the results was aborted.
    cleaned :
        (e : Exception) (t : WriteTransport) (ended : Result (Unit {0}))
        (decoded : DecodeState Message)
        → decode o s.insert.plan t results ≡ (ended, decoded)
        → Finalized s results (throw e) (s.calls ++ abort_call t decoded ∷ [])
    -- No rows, and nothing to commit.
    empty : Finalized s results (ok 0) s.calls
    -- All decoded messages in one commit, and the count of the rows.
    done :
        (t : WriteTransport) (decoded : DecodeState Message)
        → Checked s results t decoded
        → Finalized s results (ok decoded.row_count) (s.calls ++ commit_call t decoded ∷ [])
    -- The same commit, whose outcome is unknown: nothing is aborted.
    unknown :
        (e : Exception) (t : WriteTransport) (decoded : DecodeState Message)
        → Checked s results t decoded
        → Finalized s results (throw e) (s.calls ++ commit_call t decoded ∷ [])

  module _ (s0 : CoordinatorState b Message) (results : List TaskResult) where
    abbrev Ends : Result ℕ × CoordinatorState b Message → Type 0
    Ends x = Finalized s0 results x.0 x.1.calls

    abbrev EndsAt : Result ℕ → List (Call Message) → Type 0
    EndsAt = Finalized s0 results

    module _ (t : WriteTransport) (options : Map String) (decoded : DecodeState Message) where
      abort_with-Ends :
          (committer : Option Status) (ended : Result (Unit {0})) (e : Exception)
          (s : CoordinatorState b Message)
          → s.calls ≡ s0.calls
          → decode o s0.insert.plan t results ≡ (ended, decoded)
          → EndsAt
              (throw e)
              (abort_with o committer
                (coordinator_commit_user o.platform t.operation_id)
                decoded.messages
                s).1.calls
      unfolding abort_with
      abort_with-Ends (some f) ended e s same all = subst (EndsAt (throw e)) (sym same) (refused e)
      abort_with-Ends none ended e s same all =
          subst (λ c. EndsAt (throw e) (c ++ abort_call t decoded ∷ [])) (sym same)
            (cleaned e t ended decoded all)

      pub abort-Ends :
          (ended : Result (Unit {0})) (e : Exception) (s : CoordinatorState b Message)
          → s.calls ≡ s0.calls
          → decode o s0.insert.plan t results ≡ (ended, decoded)
          → EndsAt (throw e) (best_effort_abort o t options decoded.messages s).1.calls
      unfolding best_effort_abort
      abort-Ends ended e s same all =
          by_messages decoded.messages (λ committer. abort_with-Ends committer ended e s same all)
        where
          by_messages :
              (messages : List Message)
              → ((committer : Option Status)
                  → EndsAt
                      (throw e)
                      (abort_with o committer
                        (coordinator_commit_user o.platform t.operation_id)
                        messages
                        s).1.calls)
              → EndsAt (throw e) (best_effort_abort o t options messages s).1.calls
          by_messages [] k = subst (EndsAt (throw e)) (sym same) (refused e)
          by_messages (m ∷ messages) k = k (
              o.commits.create_committer t.table_path options
                (coordinator_commit_user o.platform t.operation_id) false)

      pub commit-Ends :
          (s : CoordinatorState b Message)
          → s.calls ≡ s0.calls
          → Checked s0 results t decoded
          → Ends (commit_messages o t decoded.messages decoded.row_count true s)
      unfolding commit_messages
      commit-Ends s same checked =
          let user = coordinator_commit_user o.platform t.operation_id in
          let made =
            o.commits.filter_and_commit s.store user t.commit_identifier decoded.messages in
          let s1 = record s { store = made.1; calls = s.calls ++ commit_call t decoded ∷ [] } in
          reads-cases Ends (committed_count o made.0) s1 _
            (λ e h.
              subst (λ c. EndsAt (throw e) (c ++ commit_call t decoded ∷ [])) (sym same)
                (unknown e t decoded checked))
            (λ count h.
              check-cases Ends (not (eqb_ℤ count (pos 1))) _ s1 _
                (λ other.
                  subst
                    (λ c.
                      EndsAt
                        (throw (io_exception "Distributed Paimon write commit outcome is unknown"))
                        (c ++ commit_call t decoded ∷ []))
                    (sym same)
                    (unknown (io_exception "Distributed Paimon write commit outcome is unknown") t
                      decoded checked))
                (λ one.
                  subst (λ c. EndsAt (ok decoded.row_count) (c ++ commit_call t decoded ∷ []))
                    (sym same) (done t decoded checked)))
