-- ===== src/DistributedScan/Numbering.antt =====
-- The ids that `PaimonPlanDistributedScanSplits` gives to the splits of a plan.
use duckdb_paimon.Prelude.{
  ℕ, zero, suc, ◌+◌, ◌≡◌, sym, ap, ◌∙◌, not, ◌&&◌, ◌||◌, Option, none, some, List, [], ◌∷◌,
  is_empty, is_some, get_elem?, arith,
}
use duckdb_paimon.Prelude.Int.{ℤ}
use duckdb_paimon.Sql.{Result, ok, throw, throw_if, invalid_input, ◌>>◌, >>=-eq-ok, throw_if-passes}
use duckdb_paimon.TablePath.{Text}
use duckdb_paimon.Paimon.{Outcome, value, status}
use duckdb_paimon.Scan.{ScanBindData, DistributedScanState}
use duckdb_paimon.Wire.{Wire}
use duckdb_paimon.DistributedScan.SplitIds.{to_string, to_string_injective}
use duckdb_paimon.DistributedScan.Envelope.{SplitEnvelope}
use duckdb_paimon.DistributedScan.Planning.{
  SplitApi, Plan, DistributedScanSplit, is_coordinator, optional_index, planned_envelope,
  pack_envelope, plan_split, plan_from, plan_splits,
}

module _ {Split : Type 0} (codec : Wire) (api : SplitApi Split) where
  pack_envelope-id :
      (e : SplitEnvelope) (packed : DistributedScanSplit)
      → pack_envelope codec api e ≡ ok packed
      → packed.split_id ≡ e.split_id
  unfolding pack_envelope
  pack_envelope-id e packed h =
      let (cardinality, c, h1) =
        >>=-eq-ok (optional_index e.has_estimated_cardinality e.estimated_cardinality) _ h in
      let (bytes, b, h2) =
        >>=-eq-ok (optional_index e.has_estimated_bytes e.estimated_bytes) _ h1 in
      cc

  plan_split-id :
      (state : DistributedScanState Split) (snapshot : Option ℤ) (i : ℕ) (split : Option Split)
      (packed : DistributedScanSplit)
      → plan_split codec api state snapshot i split ≡ ok packed
      → packed.split_id ≡ to_string i
  unfolding plan_split planned_envelope
  plan_split-id state snapshot i none packed h = cc
  plan_split-id state snapshot i (some split) packed h = from_bytes (api.serialize split) h
    where
      from_bytes :
          (x : Outcome Text)
          → elim x [
            | status e ↦ throw (invalid_input e.text)
            | value serialized ↦
                pack_envelope codec api
                  (planned_envelope codec api state snapshot i split serialized)
          ]
            ≡ ok packed
          → packed.split_id ≡ to_string i
      from_bytes (status e) h = cc
      from_bytes (value serialized) h =
          pack_envelope-id (planned_envelope codec api state snapshot i split serialized) packed h

  plan_from-id :
      (state : DistributedScanState Split) (snapshot : Option ℤ) (first : ℕ)
      (splits : List (Option Split)) (planned : List DistributedScanSplit)
      → plan_from codec api state snapshot first splits ≡ ok planned
      → (i : ℕ) (split : DistributedScanSplit) → get_elem? planned i ≡ some split
      → split.split_id ≡ to_string (first + i)
  unfolding plan_from
  plan_from-id state snapshot first [] planned h i split found =
      let e : [] ≡ planned = cc in
      let nothing : none ≡ some split = ap (λ xs. get_elem? xs i) e ∙ found in cc
  plan_from-id state snapshot first (s ∷ splits) planned h i split found =
      let (packed, p, h1) = >>=-eq-ok (plan_split codec api state snapshot first s) _ h in
      let (later, l, h2) = >>=-eq-ok (plan_from codec api state snapshot (suc first) splits) _ h1 in
      let e : packed ∷ later ≡ planned = cc in
      at packed later p (plan_from-id state snapshot (suc first) splits later l) i
        (ap (λ xs. get_elem? xs i) e ∙ found)
    where
      at :
          (packed : DistributedScanSplit) (later : List DistributedScanSplit)
          → plan_split codec api state snapshot first s ≡ ok packed
          → ((i : ℕ) (x : DistributedScanSplit)
              → get_elem? later i ≡ some x
              → x.split_id ≡ to_string (suc first + i))
          → (i : ℕ) → get_elem? (packed ∷ later) i ≡ some split
          → split.split_id ≡ to_string (first + i)
      at packed later p numbered zero found =
          let e : packed ≡ split = cc in
          ap (λ x. x.split_id) (sym e)
          ∙ plan_split-id state snapshot first s packed p
          ∙ ap to_string (omega arith)
      at packed later p numbered (suc i) found = numbered i split found ∙ ap to_string (omega arith)

  -- The splits of a plan are numbered from zero in their order, in decimal, so two splits of one plan have
  -- different ids.
  pub plan_splits-numbered :
      {Predicate : Type 0}
      (create_plan : ScanBindData Predicate Split → Result (Option (Plan Split)))
      (bind : ScanBindData Predicate Split) (planned : List DistributedScanSplit)
      → plan_splits codec api create_plan bind ≡ ok planned
      → ((i : ℕ) (split : DistributedScanSplit)
          → get_elem? planned i ≡ some split
          → split.split_id ≡ to_string i)
        × ((i j : ℕ) (a b : DistributedScanSplit)
            → get_elem? planned i ≡ some a
            → get_elem? planned j ≡ some b
            → a.split_id ≡ b.split_id
            → i ≡ j)
  unfolding plan_splits
  plan_splits-numbered create_plan bind planned h =
      let (ready, h1) =
        throw_if-passes
          (not (is_coordinator bind.distributed.phase) || is_empty bind.distributed.split_set_id) _
          _ h in
      let (created, c, h2) = >>=-eq-ok (create_plan bind) _ h1 in
      let numbered = of_plan created h2 in
      (
        numbered,
        λ i j a b at_i at_j same.
            to_string_injective i j (sym (numbered i a at_i) ∙ same ∙ numbered j b at_j),
      )
    where
      of_plan :
          (created : Option (Plan Split))
          → elim created [
            | none ↦ throw (invalid_input "Distributed Paimon scan planning returned an empty plan")
            | some plan ↦
                throw_if (not (is_some plan.snapshot_id) && not (is_empty plan.splits)) (
                  invalid_input
                    "Distributed Paimon scan returned splits without a snapshot identity")
                >> plan_from codec api bind.distributed plan.snapshot_id 0 plan.splits
          ]
            ≡ ok planned
          → (i : ℕ) (split : DistributedScanSplit) → get_elem? planned i ≡ some split
          → split.split_id ≡ to_string i
      of_plan none h2 i split found = cc
      of_plan (some plan) h2 i split found =
          let (identified, h3) =
            throw_if-passes (not (is_some plan.snapshot_id) && not (is_empty plan.splits)) _ _ h2 in
          plan_from-id bind.distributed plan.snapshot_id 0 plan.splits planned h3 i split found
          ∙ ap to_string (omega arith)
