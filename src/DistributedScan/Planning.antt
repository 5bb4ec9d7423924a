-- ===== src/DistributedScan/Planning.antt =====
-- `PaimonPlanDistributedScanSplits` and `PaimonApplyDistributedScanSplits`. A split is a value of
-- paimon-cpp; its kind and its serialization are parameters.
use duckdb_paimon.Prelude.{
  ℕ, suc, Bool, true, false, not, ◌&&◌, ◌||◌, Option, none, some, List, [], ◌∷◌, ◌++◌, eqb,
  is_empty, is_some, if◌then◌else◌,
}
use duckdb_paimon.Prelude.Int.{ℤ, pos, eqb_ℤ}
use duckdb_paimon.Sql.{invalid_input, internal_exception, Result, ok, throw, throw_if, ◌>>=◌, ◌>>◌}
use duckdb_paimon.TablePath.{Text, text_eq}
use duckdb_paimon.Paimon.{Outcome, value, status}
use duckdb_paimon.Scan.{ScanBindData, DistributedScanState, ScanPhase}
use duckdb_paimon.DistributedScan.SplitIds.{is_canonical_split_id, to_string}
use duckdb_paimon.DistributedScan.Estimates.{SplitKind, Estimates, split_estimates, index_maximum}
use duckdb_paimon.Wire.{Wire}
use duckdb_paimon.DistributedScan.Envelope.{
  SplitEnvelope, serialize_split_envelope, deserialize_split_envelope, validate_envelope_identity,
}

pub record SplitApi (Split : Type 0) : Type 0 where
  pub kind : Split → SplitKind
  pub serialize : Split → Outcome Text
  -- A null pointer is none.
  pub deserialize : Text → Outcome (Option Split)

-- paimon::Plan; a split may be a null pointer.
pub record Plan (Split : Type 0) : Type 0 where
  pub snapshot_id : Option ℤ
  pub splits : List (Option Split)

-- DuckDB's `DistributedScanSplit`, with its optional indexes.
pub record DistributedScanSplit : Type 0 where
  pub split_id : Text
  pub payload : Text
  pub estimated_cardinality : Option ℕ
  pub estimated_bytes : Option ℕ

-- `optional_idx(value)` throws at the invalid index.
unfoldable pub optional_index : Bool → ℕ → Result (Option ℕ)
optional_index false n = ok none
optional_index true n =
    if eqb n index_maximum
    then throw (internal_exception "optional_idx cannot be initialized with an invalid index")
    else ok (some n)

abbrev pub value_or_zero : Option ℤ → ℤ
value_or_zero none = pos 0
value_or_zero (some n) = n

abbrev pub is_coordinator : ScanPhase → Bool
is_coordinator ScanPhase.distributed_coordinator = true
is_coordinator _ = false

abbrev pub is_worker_template : ScanPhase → Bool
is_worker_template ScanPhase.worker_template = true
is_worker_template _ = false

module _ {Split : Type 0} (codec : Wire) (api : SplitApi Split) where
  unfoldable pub planned_envelope :
      DistributedScanState Split → Option ℤ → ℕ → Split → Text → SplitEnvelope
  planned_envelope state snapshot index split serialized =
      let estimates : Estimates = split_estimates (api.kind split) state.append_only in
      record {
        split_set_id = state.split_set_id;
        split_id = to_string index;
        has_snapshot = is_some snapshot;
        snapshot_id = value_or_zero snapshot;
        schema_id = state.schema_id;
        paimon_split = serialized;
        has_estimated_cardinality = estimates.has_cardinality;
        estimated_cardinality = estimates.cardinality;
        has_estimated_bytes = estimates.has_bytes;
        estimated_bytes = estimates.bytes;
      }

  unfoldable pub pack_envelope : SplitEnvelope → Result DistributedScanSplit
  pack_envelope e = do
    cardinality ← optional_index e.has_estimated_cardinality e.estimated_cardinality
    bytes ← optional_index e.has_estimated_bytes e.estimated_bytes
    ok (record {
      split_id = e.split_id;
      payload = serialize_split_envelope codec e;
      estimated_cardinality = cardinality;
      estimated_bytes = bytes;
    })

  -- One round of the planning loop.
  unfoldable pub plan_split :
      DistributedScanState Split → Option ℤ → ℕ → Option Split → Result DistributedScanSplit
  plan_split state snapshot index none =
      throw (invalid_input "Distributed Paimon scan planned an empty split")
  plan_split state snapshot index (some split) = elim (api.serialize split) [
    | status e ↦ throw (invalid_input e.text)
    | value serialized ↦ pack_envelope (planned_envelope state snapshot index split serialized)
  ]

  unfoldable pub plan_from :
      DistributedScanState Split
      → Option ℤ
      → ℕ
      → List (Option Split)
      → Result (List DistributedScanSplit)
  plan_from state snapshot index [] = ok []
  plan_from state snapshot index (split ∷ splits) = do
    first ← plan_split state snapshot index split
    later ← plan_from state snapshot (suc index) splits
    ok (first ∷ later)

  unfoldable pub plan_splits :
      {Predicate : Type 0}
      → (ScanBindData Predicate Split → Result (Option (Plan Split)))
      → ScanBindData Predicate Split
      → Result (List DistributedScanSplit)
  plan_splits create_plan bind = do
    throw_if (not (is_coordinator bind.distributed.phase) || is_empty bind.distributed.split_set_id)
        (invalid_input "Distributed Paimon split planning requires a coordinator bind")
    created ← create_plan bind
    elim created [
      | none ↦ throw (invalid_input "Distributed Paimon scan planning returned an empty plan")
      | some plan ↦ do
        throw_if (not (is_some plan.snapshot_id) && not (is_empty plan.splits))
            (invalid_input "Distributed Paimon scan returned splits without a snapshot identity")
        plan_from bind.distributed plan.snapshot_id 0 plan.splits
    ]

-- `unordered_set<string>::find` on split ids.
unfoldable pub has_id : Text → List Text → Bool
has_id id [] = false
has_id id (x ∷ xs) = text_eq x id || has_id id xs

-- What the loop of `PaimonApplyDistributedScanSplits` collects.
pub record Assignment (Split : Type 0) : Type 0 where
  pub split_ids : List Text
  pub assigned_splits : List Split
  pub snapshot : Option ℤ

unfoldable pub same_index : Bool → ℕ → Option ℕ → Bool
same_index false n none = true
same_index false n (some k) = false
same_index true n none = false
same_index true n (some k) = eqb n k

unfoldable pub metadata_matches : SplitEnvelope → DistributedScanSplit → Bool
metadata_matches e split =
    text_eq e.split_id split.split_id
    && same_index e.has_estimated_cardinality e.estimated_cardinality split.estimated_cardinality
    && same_index e.has_estimated_bytes e.estimated_bytes split.estimated_bytes

-- The first split decides the snapshot, and the others must have the same.
unfoldable pub agrees : Option ℤ → ℤ → Bool
agrees none id = true
agrees (some first) id = eqb_ℤ id first

unfoldable pub is_acceptable : DistributedScanSplit → List Text → Bool
is_acceptable split ids =
    is_canonical_split_id split.split_id
    && not (is_empty split.payload)
    && not (has_id split.split_id ids)

module _ {Split : Type 0} (codec : Wire) (api : SplitApi Split) where
  unfoldable pub unpack_split : Text → Result Split
  unpack_split serialized = elim (api.deserialize serialized) [
    | status e ↦ throw (invalid_input e.text)
    | value none ↦
        throw (invalid_input "Distributed Paimon split deserialization returned an empty split")
    | value (some split) ↦ ok split
  ]

  -- One round of the loop over the assigned splits.
  unfoldable pub assign_split :
      DistributedScanState Split
      → Assignment Split
      → DistributedScanSplit
      → Result (Assignment Split)
  assign_split state a split = do
    throw_if (not (is_acceptable split a.split_ids))
        (invalid_input "Invalid or duplicate distributed Paimon scan split")
    e ← deserialize_split_envelope codec split.payload
    validate_envelope_identity e state
    throw_if (not e.has_snapshot)
        (invalid_input "Distributed Paimon scan split has no snapshot identity")
    throw_if (not (agrees a.snapshot e.snapshot_id))
        (invalid_input "Distributed Paimon scan splits have inconsistent snapshot identities")
    throw_if (not (metadata_matches e split))
        (invalid_input "Distributed Paimon scan split metadata does not match its payload")
    unpacked ← unpack_split e.paimon_split
    ok (record {
      split_ids = split.split_id ∷ a.split_ids;
      assigned_splits = a.assigned_splits ++ unpacked ∷ [];
      snapshot = some (if is_some a.snapshot then value_or_zero a.snapshot else e.snapshot_id);
    })

  unfoldable pub assign_from :
      DistributedScanState Split
      → Assignment Split
      → List DistributedScanSplit
      → Result (Assignment Split)
  assign_from state a [] = ok a
  assign_from state a (split ∷ splits) = do
    next ← assign_split state a split
    assign_from state next splits

  abbrev pub empty_assignment : Assignment Split
  empty_assignment = record { split_ids = []; assigned_splits = []; snapshot = none }

  -- The bind data are changed only after every split has been accepted.
  unfoldable pub apply_splits :
      {Predicate : Type 0}
      → ScanBindData Predicate Split
      → List DistributedScanSplit
      → Result (ScanBindData Predicate Split)
  apply_splits bind splits = do
    throw_if (not (is_worker_template bind.distributed.phase))
        (invalid_input "Distributed Paimon scan splits require an unassigned worker bind")
    a ← assign_from bind.distributed empty_assignment splits
    ok (record bind {
      distributed = record bind.distributed {
        assigned_splits = a.assigned_splits;
        has_snapshot = is_some a.snapshot;
        snapshot_id = value_or_zero a.snapshot;
        phase = ScanPhase.worker_assigned;
      };
    })
