-- ===== src/DistributedScan/Envelope.antt =====
-- The split envelope: `SerializeSplitEnvelope`, `DeserializeSplitEnvelope` with its checks, and
-- `ValidateEnvelopeIdentity`. The serializer is that of Wire.
use duckdb_paimon.Prelude.{
  ℕ, [], ◌<◌, ◌≡◌, sym, ap, ◌∙◌, Bool, true, false, not, ◌&&◌, ◌||◌, arith, eqb, is_empty,
  if◌then◌else◌,
}
use duckdb_paimon.Prelude.Int.{ℤ, pos, ltb_ℤ, eqb_ℤ}
use duckdb_paimon.Sql.{serialization, Result, ok, throw_if, ◌>>=◌, ◌>>◌, >>=-eq-ok, throw_if-passes}
use duckdb_paimon.TablePath.{Text, text_eq}
use duckdb_paimon.Wire.{Kind, Wire, IsFaithful}
use duckdb_paimon.Scan.{DistributedScanState}
use duckdb_paimon.DistributedScan.SplitIds.{is_canonical_split_id}
use duckdb_paimon.DistributedScan.Estimates.{index_maximum}

pub record SplitEnvelope : Type 0 where
  pub split_set_id : Text
  pub split_id : Text
  pub has_snapshot : Bool
  pub snapshot_id : ℤ
  pub schema_id : ℤ
  pub paimon_split : Text
  pub has_estimated_cardinality : Bool
  pub estimated_cardinality : ℕ
  pub has_estimated_bytes : Bool
  pub estimated_bytes : ℕ

abbrev pub protocol_version : ℕ
protocol_version = 1

-- What `SerializeSplitEnvelope` writes of an absent value is 0.
unfoldable pub canonical_absent : SplitEnvelope → SplitEnvelope
canonical_absent e = record e {
  snapshot_id = if e.has_snapshot then e.snapshot_id else pos 0;
  estimated_cardinality = if e.has_estimated_cardinality then e.estimated_cardinality else 0;
  estimated_bytes = if e.has_estimated_bytes then e.estimated_bytes else 0;
}

unfoldable pub invalid_state : SplitEnvelope → Bool
invalid_state e =
    (is_empty e.split_set_id)
    || not (is_canonical_split_id e.split_id)
    || ltb_ℤ e.schema_id (pos 0)
    || (e.has_snapshot && ltb_ℤ e.snapshot_id (pos 0))
    || is_empty e.paimon_split
    || (e.has_estimated_cardinality && eqb e.estimated_cardinality index_maximum)
    || (e.has_estimated_bytes && eqb e.estimated_bytes index_maximum)

unfoldable pub non_canonical_absent : SplitEnvelope → Bool
non_canonical_absent e =
    (not e.has_snapshot && not (eqb_ℤ e.snapshot_id (pos 0)))
    || (not e.has_estimated_cardinality && not (eqb e.estimated_cardinality 0))
    || (not e.has_estimated_bytes && not (eqb e.estimated_bytes 0))

unfoldable pub check_envelope : SplitEnvelope → Result SplitEnvelope
check_envelope e = do
  throw_if (invalid_state e)
      (serialization "Distributed Paimon scan split contains invalid identity or payload state")
  throw_if (non_canonical_absent e)
      (serialization "Distributed Paimon scan split contains non-canonical absent state")
  ok e

module _ (wire : Wire) where
  -- The fields in the order of `SerializeSplitEnvelope`.
  unfoldable pub serialize_split_envelope : SplitEnvelope → Text
  serialize_split_envelope envelope =
      let e = canonical_absent envelope in
      wire.put Kind.index 1 protocol_version (
        wire.put Kind.text 2 e.split_set_id (
          wire.put Kind.text 3 e.split_id (
            wire.put Kind.boolean 4 e.has_snapshot (
              wire.put Kind.integer 5 e.snapshot_id (
                wire.put Kind.integer 6 e.schema_id (
                  wire.put Kind.text 7 e.paimon_split (
                    wire.put Kind.boolean 8 e.has_estimated_cardinality (
                      wire.put Kind.index 9 e.estimated_cardinality (
                        wire.put Kind.boolean 10 e.has_estimated_bytes
                          (wire.put Kind.index 11 e.estimated_bytes (wire.close [])))))))))))

  -- Each field with the bytes behind it.
  unfoldable pub read_split_envelope : Text → Result SplitEnvelope
  read_split_envelope payload = do
    version ← wire.get Kind.index 1 payload
    throw_if (not (eqb version.0 protocol_version))
        (serialization "Distributed Paimon scan split has unsupported protocol version")
    split_set_id ← wire.get Kind.text 2 version.1
    split_id ← wire.get Kind.text 3 split_set_id.1
    has_snapshot ← wire.get Kind.boolean 4 split_id.1
    snapshot_id ← wire.get Kind.integer 5 has_snapshot.1
    schema_id ← wire.get Kind.integer 6 snapshot_id.1
    paimon_split ← wire.get Kind.text 7 schema_id.1
    has_estimated_cardinality ← wire.get Kind.boolean 8 paimon_split.1
    estimated_cardinality ← wire.get Kind.index 9 has_estimated_cardinality.1
    has_estimated_bytes ← wire.get Kind.boolean 10 estimated_cardinality.1
    estimated_bytes ← wire.get Kind.index 11 has_estimated_bytes.1
    end ← wire.leave estimated_bytes.1
    ok (record {
      split_set_id = split_set_id.0;
      split_id = split_id.0;
      has_snapshot = has_snapshot.0;
      snapshot_id = snapshot_id.0;
      schema_id = schema_id.0;
      paimon_split = paimon_split.0;
      has_estimated_cardinality = has_estimated_cardinality.0;
      estimated_cardinality = estimated_cardinality.0;
      has_estimated_bytes = has_estimated_bytes.0;
      estimated_bytes = estimated_bytes.0;
    })

  unfoldable pub deserialize_split_envelope : Text → Result SplitEnvelope
  deserialize_split_envelope payload = do
    throw_if (is_empty payload)
        (serialization "Cannot deserialize an empty distributed Paimon scan split")
    envelope ← read_split_envelope payload
    check_envelope envelope

unfoldable pub validate_envelope_identity :
    {Split : Type 0} → SplitEnvelope → DistributedScanState Split → Result (Unit {0})
validate_envelope_identity e state =
    throw_if
      (not (text_eq e.split_set_id state.split_set_id) || not (eqb_ℤ e.schema_id state.schema_id))
      (serialization "Distributed Paimon scan split does not match its worker bind identity")

-- The writer's values stay clear of what the reader refuses.
pub record IsWellFormed (e : SplitEnvelope) : Type 0 where
  pub set_id : (is_empty e.split_set_id) ≡ false
  pub id : is_canonical_split_id e.split_id ≡ true
  pub schema : ltb_ℤ e.schema_id (pos 0) ≡ false
  pub snapshot : (e.has_snapshot && ltb_ℤ e.snapshot_id (pos 0)) ≡ false
  pub split : is_empty e.paimon_split ≡ false
  pub cardinality : e.estimated_cardinality < index_maximum
  pub bytes : e.estimated_bytes < index_maximum

canonical-valid : (e : SplitEnvelope) → IsWellFormed e → invalid_state (canonical_absent e) ≡ false
unfolding invalid_state canonical_absent
canonical-valid e h = ground arith

canonical-absent : (e : SplitEnvelope) → non_canonical_absent (canonical_absent e) ≡ false
unfolding non_canonical_absent canonical_absent
canonical-absent e = ground arith

pub serialize_split_envelope-ne :
    (wire : Wire) (e : SplitEnvelope)
    → IsFaithful wire
    → is_empty (serialize_split_envelope wire e) ≡ false
unfolding serialize_split_envelope
serialize_split_envelope-ne wire e f = f.put-ne Kind.index 1 protocol_version _

read_split_envelope-serialize :
    (wire : Wire) (e : SplitEnvelope)
    → IsFaithful wire
    → read_split_envelope wire (serialize_split_envelope wire e) ≡ ok (canonical_absent e)
unfolding read_split_envelope serialize_split_envelope
read_split_envelope-serialize wire e f = simp (f.texts, f.integers, f.indexes, f.booleans, f.leaves)

accepted-valid :
    (wire : Wire) (payload : Text) (e : SplitEnvelope)
    → deserialize_split_envelope wire payload ≡ ok e
    → (invalid_state e ≡ false) × (non_canonical_absent e ≡ false)
unfolding deserialize_split_envelope check_envelope
accepted-valid wire payload e h =
    let (filled, h1) = throw_if-passes (is_empty payload) _ _ h in
    let (read, r, h2) = >>=-eq-ok (read_split_envelope wire payload) _ h1 in
    let (valid, h3) = throw_if-passes (invalid_state read) _ _ h2 in
    let (absent, h4) = throw_if-passes (non_canonical_absent read) _ _ h3 in
    let same : read ≡ e = cc in
    (ap invalid_state (sym same) ∙ valid, ap non_canonical_absent (sym same) ∙ absent)

-- What a writer serializes of a well-formed envelope is accepted, and read back as it was, but for
-- values that are marked absent, which are 0; and whatever payload is accepted, the envelope that it
-- gives has a valid state and canonical absent values.
pub deserialize-serialize :
    (wire : Wire) (e : SplitEnvelope)
    → IsFaithful wire
    → IsWellFormed e
    → (deserialize_split_envelope wire (serialize_split_envelope wire e) ≡ ok (canonical_absent e))
      × ((payload : Text) (other : SplitEnvelope)
          → deserialize_split_envelope wire payload ≡ ok other
          → (invalid_state other ≡ false) × (non_canonical_absent other ≡ false))
unfolding deserialize_split_envelope check_envelope
deserialize-serialize wire e faithful h = (
  rw (
    serialize_split_envelope-ne wire e faithful,
    read_split_envelope-serialize wire e faithful,
    canonical-valid e h,
    canonical-absent e,
  ),
  accepted-valid wire,
)
