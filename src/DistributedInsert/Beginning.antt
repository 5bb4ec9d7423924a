-- ===== src/DistributedInsert/Beginning.antt =====
-- A finalization begins at most once, and whatever comes after it changes nothing.
use duckdb_paimon.Prelude.{
  ℕ, ◌≡◌, refl, ap, ◌∙◌, Bool, true, false, not, none, List, [], ◌∷◌, Map, arith, ◌⊎◌, inl, inr,
  String,
}
use mathlib.Core.Path.{subst}
use duckdb_paimon.Sql.{Result, ok, throw}
use duckdb_paimon.Catalog.Backend.{Backend}
use duckdb_paimon.DistributedInsert.Actions.{
  next_of, on_throw, ◌>>=◌, reads-cases, check-cases, rethrow_after-cases,
}
use duckdb_paimon.DistributedInsert.Transport.{WriteTransport}
use duckdb_paimon.DistributedInsert.Tasks.{build_runtime_options}
use duckdb_paimon.DistributedInsert.DecodeState.{TaskResult, DecodeState}
use duckdb_paimon.DistributedInsert.Operator.{
  PaimonInsert, coordinator_transport, validate_coordinator_shape,
}
use duckdb_paimon.DistributedInsert.Coordinator.{
  CoordinatorState, Outside, Decoded, abort_with, best_effort_abort,
}
use duckdb_paimon.DistributedInsert.Methods.{
  decode, decoded_or_abort, ready_to_commit, commit_messages, commit_results,
  finalize_distributed_write, abort_distributed_write,
}
use duckdb_paimon.DistributedInsert.Quiet.{ready_to_commit-keeps}
use duckdb_paimon.DistributedInsert.Outcomes.{begun}

module _ {b : Backend} {Message : Type 0} (o : Outside b Message) where
  abort-keeps :
      (t : WriteTransport) (options : Map String) (messages : List Message)
      (s : CoordinatorState b Message)
      → (best_effort_abort o t options messages s).1.insert ≡ s.insert
  unfolding best_effort_abort abort_with
  abort-keeps t options [] s = refl
  abort-keeps t options (m ∷ messages) s = ground arith

  commit-keeps :
      (t : WriteTransport) (messages : List Message) (rows : ℕ) (ready : Bool)
      (s : CoordinatorState b Message)
      → (commit_messages o t messages rows ready s).1.insert ≡ s.insert
  unfolding commit_messages
  commit-keeps t messages rows false s = refl
  commit-keeps t messages rows true s = ground arith

  abbrev pub BeganAfter : {A : Type 0} → Result A × CoordinatorState b Message → Type 0
  BeganAfter x = x.1.insert.finalize_started ≡ true

  commit_results-begun :
      (insert : PaimonInsert) (t : WriteTransport) (options : Map String)
      (results : List TaskResult) (s : CoordinatorState b Message)
      → s.insert.finalize_started ≡ true
      → BeganAfter (commit_results o insert t options results s)
  unfolding commit_results decoded_or_abort
  commit_results-begun insert t options results s h = by_decoding (decode o insert.plan t results)
    where
      by_decoding :
          (x : Decoded Message)
          → BeganAfter (
              next_of (decoded_or_abort o t options x s) (λ decoded.
                on_throw
                  (ready_to_commit o insert t options decoded.messages decoded.row_count)
                  (best_effort_abort o t options decoded.messages)
                >>= λ ready. commit_messages o t decoded.messages decoded.row_count ready))
      by_decoding (throw e, decoded) =
          ap (λ i. i.finalize_started) (abort-keeps t options decoded.messages s) ∙ h
      by_decoding (ok u, decoded) =
          rethrow_after-cases BeganAfter
            (ready_to_commit o insert t options decoded.messages decoded.row_count s)
            (best_effort_abort o t options decoded.messages) _
            (λ e s1 e1.
              ap (λ i. i.finalize_started) (abort-keeps t options decoded.messages s1)
              ∙ subst (λ x. x.1.insert.finalize_started ≡ true) e1 (kept decoded))
            (λ ready s1 e1.
              ap (λ i. i.finalize_started)
                (commit-keeps t decoded.messages decoded.row_count ready s1)
              ∙ subst (λ x. x.1.insert.finalize_started ≡ true) e1 (kept decoded))
        where
          kept :
              (decoded : DecodeState Message)
              → BeganAfter (ready_to_commit o insert t options decoded.messages decoded.row_count s)
          kept decoded =
              (ready_to_commit-keeps o s.calls true insert t options decoded.messages
                decoded.row_count s (refl, h)).1

  -- A finalization changes nothing, or has begun.
  pub finalize-begins :
      (results : List TaskResult) (s : CoordinatorState b Message)
      → ((finalize_distributed_write o results s).1 ≡ s)
        ⊎ BeganAfter (finalize_distributed_write o results s)
  unfolding finalize_distributed_write
  finalize-begins results s =
      reads-cases Q (validate_coordinator_shape o.platform o.codec o.keys s.insert) s _
        (λ e h. inl refl)
        (λ u h.
          check-cases Q s.insert.finalize_started _ s _ (λ again. inl refl)
            (λ first.
              let s1 = record s { insert = begun o s.insert } in
              check-cases Q (not s.insert.target_prepared) _ s1 _ (λ unprepared. inr refl)
                (λ prepared.
                  reads-cases Q (coordinator_transport o.platform o.codec o.keys (begun o s.insert))
                    s1 _ (λ e h. inr refl)
                    (λ t own.
                      reads-cases Q (build_runtime_options o.platform o.env o.keys t none) s1 _
                        (λ e h. inr refl)
                        (λ options h.
                          inr
                            (commit_results-begun (begun o s.insert) t options results s1 refl))))))
    where
      Q : Result ℕ × CoordinatorState b Message → Type 0
      Q x = (x.1 ≡ s) ⊎ BeganAfter x

  -- A second finalization changes nothing.
  pub finalize-again :
      (results : List TaskResult) (s : CoordinatorState b Message)
      → s.insert.finalize_started ≡ true
      → (finalize_distributed_write o results s).1 ≡ s
  unfolding finalize_distributed_write
  finalize-again results s started = rw started (ground arith)

  pub abort-again :
      (results : List TaskResult) (s : CoordinatorState b Message)
      → s.insert.finalize_started ≡ true
      → (abort_distributed_write o results s).1 ≡ s
  unfolding abort_distributed_write
  abort-again results s started = rw started (ground arith)
