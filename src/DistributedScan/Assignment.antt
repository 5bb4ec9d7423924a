-- ===== src/DistributedScan/Assignment.antt =====
-- The splits that a coordinator plans, given to a worker in any selection, are assigned as planned.
use duckdb_paimon.Prelude.{
  ℕ, ◌<◌, ◌≡◌, refl, sym, ap, ◌∙◌, true, false, not, Option, none, some, List, [], ◌∷◌, ◌++◌, map,
  arith, is_empty, is_some, All, if◌then◌else◌, inl, inr, ◌⊎◌,
}
use mathlib.Core.List.{append-nil, append_assoc}
use duckdb_paimon.Prelude.Int.{ℤ, pos, ltb_ℤ}
use duckdb_paimon.Sql.{Result, ok, throw}
use duckdb_paimon.TablePath.{Text}
use duckdb_paimon.Paimon.{Outcome, value, status}
use duckdb_paimon.Scan.{ScanBindData, DistributedScanState, ScanPhase}
use duckdb_paimon.DistributedScan.SplitIds.{to_string, to_string_canonical}
use duckdb_paimon.DistributedScan.Estimates.{index_maximum, split_estimates-lt}
use duckdb_paimon.Wire.{Wire, IsFaithful}
use duckdb_paimon.DistributedScan.Envelope.{
  SplitEnvelope, IsWellFormed, canonical_absent, serialize_split_envelope-ne,
  deserialize_split_envelope, deserialize-serialize, validate_envelope_identity,
}
use duckdb_paimon.DistributedScan.Planning.{
  SplitApi, DistributedScanSplit, Assignment, plan_split, pack_envelope, planned_envelope,
  metadata_matches, agrees, is_acceptable, unpack_split, assign_split, assign_from, apply_splits,
  value_or_zero,
}
use duckdb_paimon.DistributedScan.Matching.{
  text_eq_refl, if_same, has_index, Fresh, fresh_id, optional_index-lt, same_index_self, packed,
}

-- paimon-cpp reads back the split that it wrote, and writes no empty text.
pub record IsReversible {Split : Type 0} (api : SplitApi Split) : Type 0 where
  pub deserialize-serialize :
      (s : Split) (p : Text) → api.serialize s ≡ value p → api.deserialize p ≡ value (some s)
  pub serialize-ne : (s : Split) (p : Text) → api.serialize s ≡ value p → is_empty p ≡ false

module _ {Split : Type 0} (codec : Wire) (api : SplitApi Split) where
  pack_envelope-lt :
      (e : SplitEnvelope)
      → e.estimated_cardinality < index_maximum
      → e.estimated_bytes < index_maximum
      → pack_envelope codec api e ≡ ok (packed codec e)
  unfolding pack_envelope
  pack_envelope-lt e h k = rw (
    optional_index-lt e.has_estimated_cardinality e.estimated_cardinality h,
    optional_index-lt e.has_estimated_bytes e.estimated_bytes k,
  )

  module _ (faithful : IsFaithful codec) (reversible : IsReversible api)
      (planner worker : DistributedScanState Split) (id : ℤ)
      (named : (is_empty planner.split_set_id) ≡ false)
      (schema : ltb_ℤ planner.schema_id (pos 0) ≡ false) (snapshot : ltb_ℤ id (pos 0) ≡ false)
      (same_set : planner.split_set_id ≡ worker.split_set_id)
      (same_schema : planner.schema_id ≡ worker.schema_id) where
    -- The coordinator planned the split at this index, and packed it so.
    abbrev pub Planned : ℕ × Split × DistributedScanSplit → Type 0
    Planned t = plan_split codec api planner (some id) t.0 (some t.1) ≡ ok t.2

    abbrev envelope : ℕ → Split → Text → SplitEnvelope
    envelope i s p = planned_envelope codec api planner (some id) i s p

    envelope-IsWellFormed :
        (i : ℕ) (s : Split) (p : Text) → api.serialize s ≡ value p → IsWellFormed (envelope i s p)
    unfolding planned_envelope
    envelope-IsWellFormed i s p h = record {
      set_id = named;
      id = to_string_canonical i;
      schema = schema;
      snapshot = snapshot;
      split = reversible.serialize-ne s p h;
      cardinality = (split_estimates-lt (api.kind s) planner.append_only).0;
      bytes = (split_estimates-lt (api.kind s) planner.append_only).1;
    }

    packed_shape :
        (i : ℕ) (s : Split) (d : DistributedScanSplit)
        → Planned (i, s, d)
        → (p : Text) × (api.serialize s ≡ value p) × (d ≡ packed codec (envelope i s p))
    unfolding plan_split
    packed_shape i s d h = go (api.serialize s) refl
      where
        go :
            (o : Outcome Text)
            → api.serialize s ≡ o
            → (p : Text) × (api.serialize s ≡ value p) × (d ≡ packed codec (envelope i s p))
        go (status e) q = absurd (ground arith)
        go (value p) q = (
          p,
          q,
          cc (
            rw (q, plan_split) at h,
            pack_envelope-lt (envelope i s p) (envelope-IsWellFormed i s p q).cardinality
                (envelope-IsWellFormed i s p q).bytes,
          ),
        )

    deserialize-packed :
        (i : ℕ) (s : Split) (p : Text)
        → api.serialize s ≡ value p
        → deserialize_split_envelope codec (packed codec (envelope i s p)).payload
          ≡ ok (canonical_absent (envelope i s p))
    deserialize-packed i s p h =
        (deserialize-serialize codec (envelope i s p) faithful (envelope-IsWellFormed i s p h)).0

    packed_acceptable :
        (i : ℕ) (s : Split) (p : Text) (used : List ℕ)
        → has_index i used ≡ false
        → is_acceptable (packed codec (envelope i s p)) (map to_string used) ≡ true
    unfolding is_acceptable planned_envelope
    packed_acceptable i s p used h = rw (
      to_string_canonical i,
      serialize_split_envelope-ne codec (envelope i s p) faithful,
      fresh_id i used h,
    )

    packed_identity :
        (i : ℕ) (s : Split) (p : Text)
        → validate_envelope_identity (canonical_absent (envelope i s p)) worker ≡ ok tt
    unfolding validate_envelope_identity canonical_absent planned_envelope
    packed_identity i s p =
        rw (same_set, same_schema, text_eq_refl worker.split_set_id) (ground arith)

    packed_metadata :
        (i : ℕ) (s : Split) (p : Text)
        → metadata_matches (canonical_absent (envelope i s p)) (packed codec (envelope i s p))
          ≡ true
    unfolding metadata_matches canonical_absent
    packed_metadata i s p = rw (
      text_eq_refl (envelope i s p).split_id,
      same_index_self (envelope i s p).has_estimated_cardinality
          (envelope i s p).estimated_cardinality,
      same_index_self (envelope i s p).has_estimated_bytes (envelope i s p).estimated_bytes,
    )

    abbrev SnapshotSoFar : Option ℤ → Type 0
    SnapshotSoFar o = (o ≡ none) ⊎ (o ≡ some id)

    agrees_so_far : (o : Option ℤ) → SnapshotSoFar o → agrees o id ≡ true
    unfolding agrees
    agrees_so_far none h = refl
    agrees_so_far (some n) h = ground arith

    packed_fields :
        (i : ℕ) (s : Split) (p : Text)
        → ((canonical_absent (envelope i s p)).has_snapshot ≡ true)
          × ((canonical_absent (envelope i s p)).snapshot_id ≡ id)
          × ((canonical_absent (envelope i s p)).paimon_split ≡ p)
          × ((packed codec (envelope i s p)).split_id ≡ to_string i)
    unfolding canonical_absent planned_envelope
    packed_fields i s p = (refl, refl, refl, refl)

    unpack_split-ok :
        (s : Split) (p : Text) → api.serialize s ≡ value p → unpack_split codec api p ≡ ok s
    unfolding unpack_split
    unpack_split-ok s p h = rw (reversible.deserialize-serialize s p h, unpack_split)

    snapshot_kept :
        (o : Option ℤ) → SnapshotSoFar o → (if is_some o then value_or_zero o else id) ≡ id
    snapshot_kept none h = refl
    snapshot_kept (some n) h = ground arith

    assign-packed :
        (a : Assignment Split) (used : List ℕ) (i : ℕ) (s : Split) (p : Text)
        → api.serialize s ≡ value p
        → a.split_ids ≡ map to_string used
        → SnapshotSoFar a.snapshot
        → has_index i used ≡ false
        → assign_split codec api worker a (packed codec (envelope i s p))
          ≡ ok (record {
            split_ids = to_string i ∷ a.split_ids;
            assigned_splits = a.assigned_splits ++ s ∷ [];
            snapshot = some id;
          })
    unfolding assign_split
    assign-packed a used i s p h ids so_far fresh =
        rw
          (
            ids,
            packed_acceptable i s p used fresh,
            deserialize-packed i s p h,
            packed_identity i s p,
          )
          (rw (
            packed_metadata i s p,
            (packed_fields i s p).0,
            (packed_fields i s p).1,
            (packed_fields i s p).2,
            (packed_fields i s p).3,
            agrees_so_far a.snapshot so_far,
            unpack_split-ok s p h,
            snapshot_kept a.snapshot so_far,
          ))

    abbrev Assigns : Assignment Split → List Split → Result (Assignment Split) → Type 0
    Assigns a splits (throw e) = ⊥
    Assigns a splits (ok a') =
        (a'.assigned_splits ≡ a.assigned_splits ++ splits)
        × (a'.snapshot ≡ (if is_empty splits then a.snapshot else some id))

    assign_from-Assigns :
        (a : Assignment Split) (used : List ℕ) (chosen : List (ℕ × Split × DistributedScanSplit))
        → a.split_ids ≡ map to_string used
        → SnapshotSoFar a.snapshot
        → Fresh used (map (λ t. t.0) chosen)
        → All Planned chosen
        → Assigns a (map (λ t. t.1) chosen) (assign_from codec api worker a (map (λ t. t.2) chosen))
    unfolding assign_from
    assign_from-Assigns a used [] ids so_far fresh planned =
        (sym (append-nil a.assigned_splits), refl)
    assign_from-Assigns a used ((i, s, d) ∷ chosen) ids so_far fresh planned =
        let (p, h, shape) = packed_shape i s d planned.0 in
        let next : Assignment Split = record {
          split_ids = to_string i ∷ a.split_ids;
          assigned_splits = a.assigned_splits ++ s ∷ [];
          snapshot = some id;
        } in
        let rest =
          assign_from-Assigns next (i ∷ used) chosen (ap (◌∷◌ (to_string i)) ids) (inr refl) fresh.1
            planned.1 in
        rw (shape, assign-packed a used i s p h ids so_far fresh.0)
          (regroup (assign_from codec api worker next (map (λ t. t.2) chosen)) rest)
      where
        regroup :
            (r : Result (Assignment Split))
            → Assigns
                (record {
                  split_ids = to_string i ∷ a.split_ids;
                  assigned_splits = a.assigned_splits ++ s ∷ [];
                  snapshot = some id;
                })
                (map (λ t. t.1) chosen)
                r
            → Assigns a (s ∷ map (λ t. t.1) chosen) r
        regroup (throw e) k = k
        regroup (ok a') k = (
          k.0 ∙ append_assoc a.assigned_splits (s ∷ []) _,
          k.1 ∙ if_same (is_empty (map (λ t. t.1) chosen)) (some id),
        )

  -- Any selection of the splits that the coordinator planned, in any order and each at most once,
  -- is accepted by a worker template of the same split set and schema: the worker is assigned
  -- exactly these splits in that order, and the plan's snapshot where there is at least one.
  -- The serializer and paimon-cpp read back what they wrote, the split set has an id, and the plan's
  -- schema and snapshot ids are not negative.
  pub apply_splits-planned :
      {Predicate : Type 0} (planner : DistributedScanState Split)
      (bind : ScanBindData Predicate Split) (id : ℤ)
      (chosen : List (ℕ × Split × DistributedScanSplit))
      → IsFaithful codec
      → IsReversible api
      → (is_empty planner.split_set_id) ≡ false
      → ltb_ℤ planner.schema_id (pos 0) ≡ false
      → ltb_ℤ id (pos 0) ≡ false
      → planner.split_set_id ≡ bind.distributed.split_set_id
      → planner.schema_id ≡ bind.distributed.schema_id
      → bind.distributed.phase ≡ ScanPhase.worker_template
      → Fresh [] (map (λ t. t.0) chosen)
      → All (λ t. plan_split codec api planner (some id) t.0 (some t.1) ≡ ok t.2) chosen
      → (bind' : ScanBindData Predicate Split) × (apply_splits codec api bind
            (map (λ t. t.2) chosen)
          ≡ ok bind')
        × (bind'.distributed.assigned_splits ≡ map (λ t. t.1) chosen)
        × (bind'.distributed.phase ≡ ScanPhase.worker_assigned)
        × (bind'.distributed.has_snapshot ≡ not (is_empty chosen))
        × (bind'.distributed.snapshot_id ≡ (if is_empty chosen then pos 0 else id))
  unfolding apply_splits
  apply_splits-planned {Predicate} planner bind id chosen faithful reversible named schema snapshot
        same_set same_schema template fresh planned =
      finish (assign_from codec api bind.distributed no_splits (map (λ t. t.2) chosen)) refl (
        assign_from-Assigns faithful reversible planner bind.distributed id named schema snapshot
          same_set same_schema no_splits [] chosen refl (inl refl) fresh planned)
    where
      no_splits : Assignment Split
      no_splits = record { split_ids = []; assigned_splits = []; snapshot = none }

      snapshot_known :
          (ts : List (ℕ × Split × DistributedScanSplit))
          → is_some (if is_empty (map (λ t. t.1) ts) then none else some id) ≡ not (is_empty ts)
      snapshot_known [] = refl
      snapshot_known (t ∷ ts) = refl

      snapshot_value :
          (ts : List (ℕ × Split × DistributedScanSplit))
          → value_or_zero (if is_empty (map (λ t. t.1) ts) then none else some id)
            ≡ (if is_empty ts then pos 0 else id)
      snapshot_value [] = refl
      snapshot_value (t ∷ ts) = refl

      finish :
          (r : Result (Assignment Split))
          → assign_from codec api bind.distributed no_splits (map (λ t. t.2) chosen) ≡ r
          → Assigns faithful reversible planner bind.distributed id named schema snapshot same_set
              same_schema no_splits
              (map (λ t. t.1) chosen)
              r
          → (bind' : ScanBindData Predicate Split) × (apply_splits codec api bind
                (map (λ t. t.2) chosen)
              ≡ ok bind')
            × (bind'.distributed.assigned_splits ≡ map (λ t. t.1) chosen)
            × (bind'.distributed.phase ≡ ScanPhase.worker_assigned)
            × (bind'.distributed.has_snapshot ≡ not (is_empty chosen))
            × (bind'.distributed.snapshot_id ≡ (if is_empty chosen then pos 0 else id))
      finish (throw e) q k = absurd k
      finish (ok a) q k = (
        record bind {
          distributed = record bind.distributed {
            assigned_splits = a.assigned_splits;
            has_snapshot = is_some a.snapshot;
            snapshot_id = value_or_zero a.snapshot;
            phase = ScanPhase.worker_assigned;
          };
        },
        rw (q, template),
        k.0,
        refl,
        ap is_some k.1 ∙ snapshot_known chosen,
        ap value_or_zero k.1 ∙ snapshot_value chosen,
      )
