-- ===== src/DistributedInsert/Transport/RoundTrip.antt =====
-- A bind of a distributed write that is serialized and received.
use duckdb_paimon.Prelude.{
  ◌≡◌, refl, Bool, true, false, is_empty, String, sym, ap, ◌∙◌, [], arith, if◌then◌else◌,
}
use mathlib.Core.Path.{subst}
use duckdb_paimon.Prelude.Int.{ℤ, pos, eq_of_parts}
use duckdb_paimon.Sql.{ok, >>=-eq-ok, throw_if-passes}
use duckdb_paimon.Wire.{Kind, Wire, IsFaithful}
use duckdb_paimon.TablePath.{Text}
use duckdb_paimon.DistributedScan.Transport.{OptionKeys}
use duckdb_paimon.DistributedInsert.Identities.{Platform}
use duckdb_paimon.DistributedInsert.Transport.{
  WriteKind, insert_kind, ctas_kind, unlisted_kind, kind_byte, kind_of_byte, WriteTransport,
  IsReversible, write_fields, read_fields, write_protocol, write_operator_name, bad_snapshot,
  invalid_key, incomplete_target, invalid_input_column, validate_write_transport,
  serialize_transport, deserialize_transport,
}

named_kind :
    (k : WriteKind) (name : String)
    → write_operator_name k ≡ ok name
    → kind_of_byte (kind_byte k) ≡ k
unfolding write_operator_name
named_kind insert_kind name h = refl
named_kind ctas_kind name h = refl
named_kind (unlisted_kind n) name h = cc

pub same_snapshot :
    (has : Bool) (id : ℤ) → bad_snapshot has id ≡ false → (if has then id else pos 0) ≡ id
unfolding bad_snapshot
same_snapshot true id h = refl
same_snapshot false id h = eq_of_parts (pos 0) id (ground arith)

pub write_fields-ne :
    (wire : Wire) (t : WriteTransport) → IsFaithful wire → is_empty (write_fields wire t) ≡ false
unfolding write_fields
write_fields-ne wire t f = f.put-ne Kind.index 1 write_protocol _

read_fields-write_fields :
    (wire : Wire) (t : WriteTransport) (name : String)
    → IsReversible wire t
    → write_operator_name t.write_kind ≡ ok name
    → bad_snapshot t.has_snapshot t.snapshot_id ≡ false
    → read_fields wire (write_fields wire t) ≡ ok t
unfolding read_fields write_fields
read_fields-write_fields wire t name r named snapshot =
    let f = r.faithful in
    simp (
      f.texts,
      f.integers,
      f.indexes,
      f.booleans,
      f.leaves,
      r.database_name,
      r.table_name,
      r.table_path,
      r.table_uuid,
      r.null_part_name,
      r.input_types,
      r.input_names,
      r.part_keys,
      r.portable_options,
      same_snapshot t.has_snapshot t.snapshot_id snapshot,
      named_kind t.write_kind name named,
    )

module _ (p : Platform) (keys : OptionKeys) where
  -- What a validated bind has.
  pub validated :
      (t : WriteTransport)
      → validate_write_transport p keys t ≡ ok tt
      → (incomplete_target p keys t ≡ false)
        × ((name : String) × (write_operator_name t.write_kind ≡ ok name))
        × (bad_snapshot t.has_snapshot t.snapshot_id ≡ false)
        × (invalid_key t.input_names [] t.part_keys ≡ false)
  unfolding validate_write_transport
  validated t h =
      let (complete, h1) = throw_if-passes (incomplete_target p keys t) _ _ h in
      let (name, named, h2) = >>=-eq-ok (write_operator_name t.write_kind) _ h1 in
      let (snapshot, h3) = throw_if-passes (bad_snapshot t.has_snapshot t.snapshot_id) _ _ h2 in
      let (columns, h4) =
        throw_if-passes (invalid_input_column [] t.input_types t.input_names) _ _ h3 in
      let (parts, h5) = throw_if-passes (invalid_key t.input_names [] t.part_keys) _ _ h4 in
      (complete, (name, named), snapshot, parts)

  -- What a serialized bind was.
  pub serialized :
      (wire : Wire) (t : WriteTransport) (bytes : Text)
      → serialize_transport p keys wire t ≡ ok bytes
      → (validate_write_transport p keys t ≡ ok tt) × (write_fields wire t ≡ bytes)
  unfolding serialize_transport
  serialized wire t bytes h =
      let (u, valid, h1) = >>=-eq-ok (validate_write_transport p keys t) _ h in (valid, cc)

  accepted-valid :
      (wire : Wire) (bytes : Text) (t : WriteTransport)
      → deserialize_transport p keys wire bytes ≡ ok t
      → validate_write_transport p keys t ≡ ok tt
  unfolding deserialize_transport
  accepted-valid wire bytes t h =
      let (filled, h1) = throw_if-passes (is_empty bytes) _ _ h in
      let (read, r, h2) = >>=-eq-ok (read_fields wire bytes) _ h1 in
      let (u, valid, h3) = >>=-eq-ok (validate_write_transport p keys read) _ h2 in
      let same : read ≡ t = cc in ap (validate_write_transport p keys) (sym same) ∙ valid

  -- Every bind that is serialized is received as it was, field by field, where the serializer reads back
  -- the fields of the bind; and whatever bytes are accepted, the bind that they give is a valid one.
  pub deserialize_transport-serialize_transport :
      (wire : Wire) (t : WriteTransport) (bytes : Text)
      → IsReversible wire t
      → serialize_transport p keys wire t ≡ ok bytes
      → (deserialize_transport p keys wire bytes ≡ ok t)
        × ((received : Text) (other : WriteTransport)
            → deserialize_transport p keys wire received ≡ ok other
            → validate_write_transport p keys other ≡ ok tt)
  unfolding deserialize_transport
  deserialize_transport-serialize_transport wire t bytes reversible h =
      let (valid, e) = serialized wire t bytes h in
      let (complete, (name, named), snapshot, parts) = validated t valid in
      (
        subst (λ b. deserialize_transport p keys wire b ≡ ok t) e
            (rw (
              write_fields-ne wire t reversible.faithful,
              read_fields-write_fields wire t name reversible named snapshot,
              valid,
            )),
        accepted-valid wire,
      )
