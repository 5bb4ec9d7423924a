-- ===== src/DistributedInsert/Transport.antt =====
-- The bind of a distributed write, `PaimonDistributedInsertTransport`: its validation and its
-- serialization. DuckDB's binary serializer is a parameter.
pub mod RoundTrip
use duckdb_paimon.Prelude.{
  ℕ, ◌≡◌, refl, sym, ap, ◌∙◌, Bool, true, false, not, ◌&&◌, ◌||◌, String, ◌==◌, List, [], ◌∷◌,
  Option, none, some, arith, eqb, length, is_empty, elem, Map, emplace, lookup, if◌then◌else◌,
}
use duckdb_paimon.Prelude.Int.{ℤ, pos, ltb_ℤ, eqb_ℤ, ◌≤ℤ◌}
use duckdb_paimon.Sql.{
  LogicalType, LogicalTypeId, Result, ok, throw, throw_if, serialization, ◌>>=◌, ◌>>◌, >>=-eq-ok,
}
use duckdb_paimon.Wire.{Kind, Wire, Reads, IsFaithful}
use duckdb_paimon.TablePath.{Text}
use duckdb_paimon.DistributedScan.Transport.{OptionKeys}
use duckdb_paimon.DistributedInsert.Identities.{Platform, is_canonical_uuid}

-- The enum's values are bytes: a byte that is read may be none of the named ones.
pub data WriteKind : Type 0 where
  insert_kind ctas_kind : WriteKind
  unlisted_kind : ℕ → WriteKind

abbrev pub kind_byte : WriteKind → ℕ
kind_byte insert_kind = 1
kind_byte ctas_kind = 2
kind_byte (unlisted_kind n) = n

abbrev pub kind_of_byte : ℕ → WriteKind
kind_of_byte n = if eqb n 1 then insert_kind else if eqb n 2 then ctas_kind else unlisted_kind n

pub record WriteTransport : Type 0 where
  pub write_kind : WriteKind
  pub operation_id : Text
  pub database_name : String
  pub table_name : String
  pub table_uuid : String
  pub table_path : String
  pub schema_fingerprint : Text
  pub schema_id : ℤ
  pub append_only : Bool
  pub has_snapshot : Bool
  pub snapshot_id : ℤ
  pub commit_identifier : ℤ
  pub input_types : List LogicalType
  pub input_names : List String
  pub part_keys : List String
  pub null_part_name : String
  pub portable_options : Map String

-- `WriteOperatorName`
unfoldable pub write_operator_name : WriteKind → Result String
write_operator_name insert_kind = ok "insert"
write_operator_name ctas_kind = ok "ctas"
write_operator_name (unlisted_kind n) =
    throw (serialization "Distributed Paimon write bind has an invalid write kind")

abbrev pub is_invalid : LogicalTypeId → Bool
is_invalid LogicalTypeId.invalid = true
is_invalid _ = false

-- The loop over the input columns, whose lists are of one length, with the names seen so far.
unfoldable pub invalid_input_column : List String → List LogicalType → List String → Bool
invalid_input_column seen [] names = false
invalid_input_column seen (t ∷ types) [] = false
invalid_input_column seen (t ∷ types) (name ∷ names) =
    is_invalid t.id
    || name == ""
    || elem name seen
    || invalid_input_column (name ∷ seen) types names

-- The loop over the partition keys, with the keys seen so far.
unfoldable pub invalid_key : List String → List String → List String → Bool
invalid_key fields seen [] = false
invalid_key fields seen (key ∷ keys) =
    key == "" || not (elem key fields) || elem key seen || invalid_key fields (key ∷ seen) keys

-- The state of the snapshot: no id without one, and a positive one with one.
unfoldable pub bad_snapshot : Bool → ℤ → Bool
bad_snapshot has_snapshot snapshot_id =
    (not has_snapshot && not (eqb_ℤ snapshot_id (pos 0)))
    || (has_snapshot && not (ltb_ℤ (pos 0) snapshot_id))

abbrev pub write_protocol : ℕ
write_protocol = 3

-- The serializer reads back the strings, types, names and options of a bind, and whatever is a number, a
-- truth value or a text.
pub record IsReversible (wire : Wire) (t : WriteTransport) : Type 0 where
  pub faithful : IsFaithful wire
  pub database_name : Reads wire Kind.string t.database_name
  pub table_name : Reads wire Kind.string t.table_name
  pub table_path : Reads wire Kind.string t.table_path
  pub table_uuid : Reads wire Kind.string t.table_uuid
  pub null_part_name : Reads wire Kind.string t.null_part_name
  pub input_types : Reads wire Kind.types t.input_types
  pub input_names : Reads wire Kind.names t.input_names
  pub part_keys : Reads wire Kind.names t.part_keys
  pub portable_options : Reads wire Kind.options t.portable_options

abbrev copy_option : Map String → String → Map String → Map String
copy_option options key result = elim (lookup key options) [
  | none ↦ result
  | some v ↦ emplace key v result
]

module _ (keys : OptionKeys) where
  -- `IsPortableWriteOption`
  unfoldable pub is_portable_write_option : String → Bool
  is_portable_write_option key = key == keys.manifest_format || key == keys.file_format

  -- `GetPortableWriteOptions`
  unfoldable pub get_portable_write_options : Map String → Map String
  get_portable_write_options options =
      copy_option options keys.file_format (copy_option options keys.manifest_format [])

  unfoldable pub invalid_write_option : Map String → Bool
  invalid_write_option [] = false
  invalid_write_option ((key, text) ∷ options) =
      not (is_portable_write_option key) || text == "" || invalid_write_option options

module _ (wire : Wire) where
  -- The fields in the order of `SerializeTransport`.
  unfoldable pub write_fields : WriteTransport → Text
  write_fields t = wire.put Kind.index 1 write_protocol (
      wire.put Kind.text 2 t.operation_id (
        wire.put Kind.string 3 t.database_name (
          wire.put Kind.string 4 t.table_name (
            wire.put Kind.string 5 t.table_path (
              wire.put Kind.text 6 t.schema_fingerprint (
                wire.put Kind.integer 7 t.schema_id (
                  wire.put Kind.boolean 8 t.has_snapshot (
                    wire.put Kind.integer 9 (if t.has_snapshot then t.snapshot_id else pos 0) (
                      wire.put Kind.integer 10 t.commit_identifier (
                        wire.put Kind.types 11 t.input_types (
                          wire.put Kind.names 12 t.input_names (
                            wire.put Kind.names 13 t.part_keys (
                              wire.put Kind.string 14 t.null_part_name (
                                wire.put Kind.options 15 t.portable_options (
                                  wire.put Kind.boolean 16 t.append_only (
                                    wire.put Kind.string 17 t.table_uuid (
                                      wire.put Kind.index 18 (kind_byte t.write_kind)
                                        (wire.close []))))))))))))))))))

  -- Each field with the bytes behind it.
  unfoldable pub read_fields : Text → Result WriteTransport
  read_fields bytes = do
    version ← wire.get Kind.index 1 bytes
    throw_if (not (eqb version.0 write_protocol))
        (serialization "Distributed Paimon INSERT bind has unsupported protocol version")
    operation_id ← wire.get Kind.text 2 version.1
    database_name ← wire.get Kind.string 3 operation_id.1
    table_name ← wire.get Kind.string 4 database_name.1
    table_path ← wire.get Kind.string 5 table_name.1
    schema_fingerprint ← wire.get Kind.text 6 table_path.1
    schema_id ← wire.get Kind.integer 7 schema_fingerprint.1
    has_snapshot ← wire.get Kind.boolean 8 schema_id.1
    snapshot_id ← wire.get Kind.integer 9 has_snapshot.1
    commit_identifier ← wire.get Kind.integer 10 snapshot_id.1
    input_types ← wire.get Kind.types 11 commit_identifier.1
    input_names ← wire.get Kind.names 12 input_types.1
    part_keys ← wire.get Kind.names 13 input_names.1
    null_part_name ← wire.get Kind.string 14 part_keys.1
    portable_options ← wire.get Kind.options 15 null_part_name.1
    append_only ← wire.get Kind.boolean 16 portable_options.1
    table_uuid ← wire.get Kind.string 17 append_only.1
    write_kind ← wire.get Kind.index 18 table_uuid.1
    end ← wire.leave write_kind.1
    ok (record {
      write_kind = kind_of_byte write_kind.0;
      operation_id = operation_id.0;
      database_name = database_name.0;
      table_name = table_name.0;
      table_uuid = table_uuid.0;
      table_path = table_path.0;
      schema_fingerprint = schema_fingerprint.0;
      schema_id = schema_id.0;
      append_only = append_only.0;
      has_snapshot = has_snapshot.0;
      snapshot_id = snapshot_id.0;
      commit_identifier = commit_identifier.0;
      input_types = input_types.0;
      input_names = input_names.0;
      part_keys = part_keys.0;
      null_part_name = null_part_name.0;
      portable_options = portable_options.0;
    })

module _ (p : Platform) (keys : OptionKeys) where
  unfoldable pub incomplete_target : WriteTransport → Bool
  incomplete_target t =
      not (is_canonical_uuid p t.operation_id)
      || t.database_name == ""
      || t.table_name == ""
      || t.table_uuid == ""
      || t.table_path == ""
      || not (eqb (length t.schema_fingerprint) 32)
      || ltb_ℤ t.schema_id (pos 0)
      || not (ltb_ℤ (pos 0) t.commit_identifier)
      || is_empty t.input_types
      || not (eqb (length t.input_types) (length t.input_names))
      || t.null_part_name == ""

  -- `ValidateTransport`
  unfoldable pub validate_write_transport : WriteTransport → Result (Unit {0})
  validate_write_transport t = do
    throw_if (incomplete_target t)
        (serialization "Distributed Paimon write bind has incomplete target state")
    name ← write_operator_name t.write_kind
    throw_if (bad_snapshot t.has_snapshot t.snapshot_id)
        (serialization "Distributed Paimon INSERT bind has non-canonical snapshot state")
    throw_if (invalid_input_column [] t.input_types t.input_names)
        (serialization "Distributed Paimon INSERT bind has an invalid input schema")
    throw_if (invalid_key t.input_names [] t.part_keys)
        (serialization "Distributed Paimon INSERT bind has an invalid partition key")
    throw_if (invalid_write_option keys t.portable_options)
        (serialization "Distributed Paimon INSERT bind contains non-portable option")
    ok tt

  module _ (wire : Wire) where
    -- `SerializeTransport`
    unfoldable pub serialize_transport : WriteTransport → Result Text
    serialize_transport t = do validate_write_transport t; ok (write_fields wire t)

    -- `DeserializeTransport`
    unfoldable pub deserialize_transport : Text → Result WriteTransport
    deserialize_transport bytes = do
      throw_if (is_empty bytes)
          (serialization "Cannot deserialize an empty distributed Paimon INSERT bind")
      t ← read_fields wire bytes
      validate_write_transport t
      ok t
