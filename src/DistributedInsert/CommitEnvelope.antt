-- ===== src/DistributedInsert/CommitEnvelope.antt =====
-- The commit envelope, `PaimonDistributedCommitEnvelope`: what a worker hands over of a task, its
-- serialization and the checks on what is read. The serializer is that of Wire.
use duckdb_paimon.Prelude.{
  ℕ, [], ◌≡◌, refl, sym, ap, ◌∙◌, Bool, false, not, ◌||◌, String, ◌==◌, arith, eqb, length,
  is_empty, if◌then◌else◌,
}
use duckdb_paimon.Prelude.Int.{ℤ, pos, ltb_ℤ}
use duckdb_paimon.Sql.{Result, ok, throw_if, serialization, ◌>>=◌, ◌>>◌, >>=-eq-ok, throw_if-passes}
use duckdb_paimon.Wire.{Kind, Wire, Reads, IsFaithful}
use duckdb_paimon.TablePath.{Text}
use duckdb_paimon.DistributedInsert.Identities.{Platform, is_canonical_uuid}
use duckdb_paimon.DistributedInsert.Transport.{write_protocol, bad_snapshot}
use duckdb_paimon.DistributedInsert.Transport.RoundTrip.{same_snapshot}

pub record CommitEnvelope : Type 0 where
  pub operation_id : Text
  pub table_uuid : String
  pub table_path : String
  pub schema_fingerprint : Text
  pub schema_id : ℤ
  pub has_snapshot : Bool
  pub snapshot_id : ℤ
  pub commit_identifier : ℤ
  pub query_id : Text
  pub task_attempt_id : Text
  pub writer_commit_user : Text
  pub commit_message_version : ℤ
  pub message_count : ℕ
  pub row_count : ℕ
  pub serialized_transport : Text
  pub serialized_messages : Text

-- The serializer reads back the strings of an envelope, and whatever is a number, a truth value or a text.
pub record IsLossless (wire : Wire) (e : CommitEnvelope) : Type 0 where
  pub faithful : IsFaithful wire
  pub table_uuid : Reads wire Kind.string e.table_uuid
  pub table_path : Reads wire Kind.string e.table_path

module _ (p : Platform) where
  unfoldable pub invalid_envelope : CommitEnvelope → Bool
  invalid_envelope e =
      not (is_canonical_uuid p e.operation_id)
      || e.table_uuid == ""
      || e.table_path == ""
      || not (eqb (length e.schema_fingerprint) 32)
      || ltb_ℤ e.schema_id (pos 0)
      || not (ltb_ℤ (pos 0) e.commit_identifier)
      || is_empty e.query_id
      || is_empty e.task_attempt_id
      || is_empty e.writer_commit_user
      || not (ltb_ℤ (pos 0) e.commit_message_version)
      || eqb e.message_count 0
      || eqb e.row_count 0
      || is_empty e.serialized_transport
      || is_empty e.serialized_messages
      || bad_snapshot e.has_snapshot e.snapshot_id

  valid_snapshot :
      (e : CommitEnvelope)
      → invalid_envelope e ≡ false
      → bad_snapshot e.has_snapshot e.snapshot_id ≡ false
  unfolding invalid_envelope
  valid_snapshot e h = ground arith

module _ (wire : Wire) where
  -- `SerializeCommitEnvelope`, field by field.
  unfoldable pub serialize_envelope : CommitEnvelope → Text
  serialize_envelope e = wire.put Kind.index 1 write_protocol (
      wire.put Kind.text 2 e.operation_id (
        wire.put Kind.string 3 e.table_path (
          wire.put Kind.text 4 e.schema_fingerprint (
            wire.put Kind.integer 5 e.schema_id (
              wire.put Kind.boolean 6 e.has_snapshot (
                wire.put Kind.integer 7 (if e.has_snapshot then e.snapshot_id else pos 0) (
                  wire.put Kind.integer 8 e.commit_identifier (
                    wire.put Kind.text 9 e.query_id (
                      wire.put Kind.text 10 e.task_attempt_id (
                        wire.put Kind.text 11 e.writer_commit_user (
                          wire.put Kind.integer 12 e.commit_message_version (
                            wire.put Kind.index 13 e.message_count (
                              wire.put Kind.index 14 e.row_count (
                                wire.put Kind.text 15 e.serialized_messages (
                                  wire.put Kind.string 16 e.table_uuid (
                                    wire.put Kind.text 17 e.serialized_transport
                                      (wire.close [])))))))))))))))))

  -- Each field with the bytes behind it.
  unfoldable pub read_envelope : Text → Result CommitEnvelope
  read_envelope bytes = do
    version ← wire.get Kind.index 1 bytes
    throw_if (not (eqb version.0 write_protocol))
        (serialization "Distributed Paimon commit fragment has unsupported protocol version")
    operation_id ← wire.get Kind.text 2 version.1
    table_path ← wire.get Kind.string 3 operation_id.1
    schema_fingerprint ← wire.get Kind.text 4 table_path.1
    schema_id ← wire.get Kind.integer 5 schema_fingerprint.1
    has_snapshot ← wire.get Kind.boolean 6 schema_id.1
    snapshot_id ← wire.get Kind.integer 7 has_snapshot.1
    commit_identifier ← wire.get Kind.integer 8 snapshot_id.1
    query_id ← wire.get Kind.text 9 commit_identifier.1
    task_attempt_id ← wire.get Kind.text 10 query_id.1
    writer_commit_user ← wire.get Kind.text 11 task_attempt_id.1
    commit_message_version ← wire.get Kind.integer 12 writer_commit_user.1
    message_count ← wire.get Kind.index 13 commit_message_version.1
    row_count ← wire.get Kind.index 14 message_count.1
    serialized_messages ← wire.get Kind.text 15 row_count.1
    table_uuid ← wire.get Kind.string 16 serialized_messages.1
    serialized_transport ← wire.get Kind.text 17 table_uuid.1
    end ← wire.leave serialized_transport.1
    ok (record {
      operation_id = operation_id.0;
      table_uuid = table_uuid.0;
      table_path = table_path.0;
      schema_fingerprint = schema_fingerprint.0;
      schema_id = schema_id.0;
      has_snapshot = has_snapshot.0;
      snapshot_id = snapshot_id.0;
      commit_identifier = commit_identifier.0;
      query_id = query_id.0;
      task_attempt_id = task_attempt_id.0;
      writer_commit_user = writer_commit_user.0;
      commit_message_version = commit_message_version.0;
      message_count = message_count.0;
      row_count = row_count.0;
      serialized_transport = serialized_transport.0;
      serialized_messages = serialized_messages.0;
    })

  serialize_envelope-ne :
      (e : CommitEnvelope) → IsFaithful wire → is_empty (serialize_envelope e) ≡ false
  unfolding serialize_envelope
  serialize_envelope-ne e f = f.put-ne Kind.index 1 write_protocol _

  read_envelope-serialize_envelope :
      (e : CommitEnvelope)
      → IsLossless wire e
      → bad_snapshot e.has_snapshot e.snapshot_id ≡ false
      → read_envelope (serialize_envelope e) ≡ ok e
  unfolding read_envelope serialize_envelope
  read_envelope-serialize_envelope e l snapshot =
      let f = l.faithful in
      simp (
        f.texts,
        f.integers,
        f.indexes,
        f.booleans,
        f.leaves,
        l.table_path,
        l.table_uuid,
        same_snapshot e.has_snapshot e.snapshot_id snapshot,
      )

  module _ (p : Platform) where
    -- `DeserializeCommitEnvelope`
    unfoldable pub deserialize_envelope : Text → Result CommitEnvelope
    deserialize_envelope bytes = do
      throw_if (is_empty bytes)
          (serialization "Cannot deserialize an empty distributed Paimon commit fragment")
      envelope ← read_envelope bytes
      throw_if (invalid_envelope p envelope) (
          serialization
            "Distributed Paimon commit fragment contains invalid identity or payload state")
      ok envelope

    accepted-valid :
        (bytes : Text) (e : CommitEnvelope)
        → deserialize_envelope bytes ≡ ok e
        → invalid_envelope p e ≡ false
    unfolding deserialize_envelope
    accepted-valid bytes e h =
        let (filled, h1) = throw_if-passes (is_empty bytes) _ _ h in
        let (envelope, read, h2) = >>=-eq-ok (read_envelope bytes) _ h1 in
        let (valid, h3) = throw_if-passes (invalid_envelope p envelope) _ _ h2 in
        let same : envelope ≡ e = cc in ap (invalid_envelope p) (sym same) ∙ valid

    -- An envelope that passes the checks is read back as it was written, field by field, where the
    -- serializer reads back its fields; and whatever bytes are accepted, the envelope that they give passes
    -- the checks.
    pub deserialize_envelope-serialize_envelope :
        (e : CommitEnvelope)
        → IsLossless wire e
        → invalid_envelope p e ≡ false
        → (deserialize_envelope (serialize_envelope e) ≡ ok e)
          × ((bytes : Text) (other : CommitEnvelope)
              → deserialize_envelope bytes ≡ ok other
              → invalid_envelope p other ≡ false)
    unfolding deserialize_envelope
    deserialize_envelope-serialize_envelope e lossless valid = (
      rw
          (
            serialize_envelope-ne e lossless.faithful,
            read_envelope-serialize_envelope e lossless (valid_snapshot p e valid),
            valid,
          )
          refl,
      accepted-valid,
    )
