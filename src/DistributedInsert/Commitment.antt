-- ===== src/DistributedInsert/Commitment.antt =====
-- `FinalizeDistributedWrite` on every branch: what it calls, and what it returns.
use duckdb_paimon.Prelude.{
  ℕ, String, ◌≡◌, ◌≢◌, refl, sym, Bool, true, false, not, none, List, [], ◌∷◌, Map, arith, eqb,
  is_empty, true_of_not,
}
use mathlib.Core.Path.{subst}
use duckdb_paimon.Sql.{Result, ok, throw}
use duckdb_paimon.Catalog.Backend.{Backend}
use duckdb_paimon.DistributedInsert.Actions.{
  ◌>>=◌, rethrow_after-cases, next_of, reads-cases, check-cases, on_throw, raise_if-passes,
  next_of-returns,
}
use duckdb_paimon.DistributedInsert.Transport.{WriteTransport}
use duckdb_paimon.DistributedInsert.Tasks.{build_runtime_options}
use duckdb_paimon.DistributedInsert.DecodeState.{TaskResult, DecodeState}
use duckdb_paimon.DistributedInsert.Target.{TargetState}
use duckdb_paimon.DistributedInsert.Operator.{
  PaimonInsert, coordinator_transport, validate_coordinator_shape,
}
use duckdb_paimon.DistributedInsert.Coordinator.{
  CoordinatorState, Outside, Decoded, load_current, best_effort_abort, validate_target_baseline,
}
use duckdb_paimon.DistributedInsert.Methods.{
  decode, decoded_or_abort, ready_from, ready_to_commit, commit_messages, commit_results,
  finalize_distributed_write,
}
use duckdb_paimon.DistributedInsert.Quiet.{At, ready_to_commit-keeps}
use duckdb_paimon.DistributedInsert.Baseline.{
  ComparesTypes, Unchanged, validate_target_baseline-Unchanged,
}
use duckdb_paimon.DistributedInsert.Outcomes.{
  begun, Checked, Finalized, refused, empty, abort-Ends, commit-Ends,
}

module _ {b : Backend} {Message : Type 0} (o : Outside b Message) where
  ready_from-facts :
      (t : WriteTransport) (options : Map String) (messages : List Message) (rows : ℕ)
      (s s' : CoordinatorState b Message) (ready : Bool)
      → ready_from o t options messages rows s ≡ (ok ready, s')
      → ready ≡ true
      → (is_empty messages ≡ false) × (rows ≢ 0)
  unfolding ready_from
  ready_from-facts t options [] rows s s' ready h e =
      let (no_rows, h1) = raise_if-passes (not (eqb rows 0)) _ s _ h in cc
  ready_from-facts t options (m ∷ messages) rows s s' ready h e =
      let (some_rows, h1) = raise_if-passes (eqb rows 0) _ s _ h in (refl, ground arith)

  -- A block that is ready has validated the target.
  ready_to_commit-facts :
      (insert : PaimonInsert) (t : WriteTransport) (options : Map String) (messages : List Message)
      (rows : ℕ) (s s' : CoordinatorState b Message) (ready : Bool)
      → ComparesTypes o.platform
      → ready_to_commit o insert t options messages rows s ≡ (ok ready, s')
      → (ready ≡ true → (is_empty messages ≡ false) × (rows ≢ 0))
        × ((before : CoordinatorState b Message) × (after : CoordinatorState b Message)
            × (current : TargetState) × (load_current o insert before ≡ (ok current, after))
            × Unchanged insert current)
  unfolding ready_to_commit
  ready_to_commit-facts insert t options messages rows s s' ready types h =
      let (u, s1, valid, h1) = next_of-returns (validate_target_baseline o insert s) _ h in
      let (current, loaded, unchanged) =
        validate_target_baseline-Unchanged o insert s s1 types valid in
      (ready_from-facts t options messages rows s1 s' ready h1, (s, s1, current, loaded, unchanged))

  module _ (s0 : CoordinatorState b Message) (results : List TaskResult)
      (types : ComparesTypes o.platform) where
    abbrev Q : Result ℕ × CoordinatorState b Message → Type 0
    Q x = Finalized o s0 results x.0 x.1.calls

    committed_or_empty :
        (t : WriteTransport) (options : Map String) (decoded : DecodeState Message) (ready : Bool)
        (s : CoordinatorState b Message)
        → s.calls ≡ s0.calls
        → (ready ≡ true → Checked o s0 results t decoded)
        → Q (commit_messages o t decoded.messages decoded.row_count ready s)
    unfolding commit_messages
    committed_or_empty t options decoded false s same checked =
        subst (Finalized o s0 results (ok 0)) (sym same) empty
    committed_or_empty t options decoded true s same checked =
        commit-Ends o s0 results t options decoded s same (checked refl)

    commit_results-Finalized :
        (t : WriteTransport) (options : Map String) (s : CoordinatorState b Message)
        → At o s0.calls true s
        → s0.insert.finalize_started ≡ false
        → s0.insert.target_prepared ≡ true
        → coordinator_transport o.platform o.codec o.keys (begun o s0.insert) ≡ ok t
        → Q (commit_results o (begun o s0.insert) t options results s)
    unfolding commit_results decoded_or_abort
    commit_results-Finalized t options s at first prepared own =
        by_decoding (decode o s0.insert.plan t results) refl
      where
        kept :
            (decoded : DecodeState Message) (r : Result Bool) (s1 : CoordinatorState b Message)
            → ready_to_commit o (begun o s0.insert) t options decoded.messages decoded.row_count s
              ≡ (r, s1)
            → s1.calls ≡ s0.calls
        kept decoded r s1 h =
            subst (λ x. x.1.calls ≡ s0.calls) h
              (ready_to_commit-keeps o s0.calls true (begun o s0.insert) t options decoded.messages
                decoded.row_count s at).0

        by_decoding :
            (x : Decoded Message)
            → decode o s0.insert.plan t results ≡ x
            → Q (
                next_of (decoded_or_abort o t options x s) (λ decoded.
                  on_throw
                    (ready_to_commit o
                      (begun o s0.insert)
                      t
                      options
                      decoded.messages
                      decoded.row_count)
                    (best_effort_abort o t options decoded.messages)
                  >>= λ ready. commit_messages o t decoded.messages decoded.row_count ready))
        by_decoding (throw e, decoded) all =
            abort-Ends o s0 results t options decoded (throw e) e s at.0 all
        by_decoding (ok u, decoded) all =
            rethrow_after-cases Q
              (ready_to_commit o (begun o s0.insert) t options decoded.messages decoded.row_count s)
              (best_effort_abort o t options decoded.messages) _
              (λ e s1 h.
                abort-Ends o s0 results t options decoded (ok u) e s1 (kept decoded (throw e) s1 h)
                  all)
              (λ ready s1 h.
                committed_or_empty t options decoded ready s1 (kept decoded (ok ready) s1 h) (λ yes.
                  let (filled, (before, after, current, read, unchanged)) =
                    ready_to_commit-facts (begun o s0.insert) t options decoded.messages
                      decoded.row_count s s1 ready types h in
                  let (some_messages, some_rows) = filled yes in
                  record {
                    first = first;
                    prepared = prepared;
                    own = own;
                    all_decoded = all;
                    some_messages = some_messages;
                    some_rows = some_rows;
                    current = current;
                    before = before;
                    after = after;
                    read = read;
                    unchanged = unchanged;
                  }))

    -- Every end of a finalization, on a platform whose comparison of types decides their equality: an
    -- exception with no call, or with an abort of what was decoded; 0 rows with no call; or one commit, at
    -- the first finalization of a prepared target, of all messages of all results, after the table was read
    -- and was the planned one, with the count of their rows or an exception. Never a commit and an abort.
    pub finalize_distributed_write-Finalized :
        Finalized o s0 results
          (finalize_distributed_write o results s0).0
          (finalize_distributed_write o results s0).1.calls
    unfolding finalize_distributed_write
    finalize_distributed_write-Finalized =
        reads-cases Q (validate_coordinator_shape o.platform o.codec o.keys s0.insert) s0 _
          (λ e h. refused e)
          (λ u h.
            check-cases Q s0.insert.finalize_started _ s0 _ (λ again. refused _)
              (λ first.
                let s1 = record s0 { insert = begun o s0.insert } in
                check-cases Q (not s0.insert.target_prepared) _ s1 _ (λ unprepared. refused _)
                  (λ prepared.
                    reads-cases Q
                      (coordinator_transport o.platform o.codec o.keys (begun o s0.insert)) s1 _
                      (λ e h. refused e)
                      (λ t own.
                        reads-cases Q (build_runtime_options o.platform o.env o.keys t none) s1 _
                          (λ e h. refused e)
                          (λ options h.
                            commit_results-Finalized t options s1 (refl, refl) first
                              (true_of_not _ prepared) own)))))
