-- ===== src/Snapshots/Bind.antt =====
-- src/paimon_storage/paimon_snapshots.cpp: the rows of the snapshot listing (`PaimonSnapshotsBind`), and their
-- check when a bound plan is read back (`Deserialize`).
use duckdb_paimon.Prelude.{
  ◌≡◌, refl, String, Bool, true, false, not, Option, none, some, List, [], ◌∷◌, Map, map, length,
  eqb,
}
use mathlib.Core.Path.{subst}
use duckdb_paimon.Prelude.Int.{ℤ, ◌*ℤ◌, wrap_int64}
use duckdb_paimon.Sql.{
  LogicalTypeId, bigint, varchar, timestamp, Result, ok, throw_if, serialization, ◌>>=◌, ◌>>◌,
  >>=-eq-ok,
}
use duckdb_paimon.Paimon.{Outcome}
use duckdb_paimon.TablePath.{Text, parse}
use duckdb_paimon.Catalog.Options.{Environment, CatalogKeys}
use duckdb_paimon.Scan.Bind.{ScanPlatform, ScanCatalog, or_raise, create_paimon_catalog}

-- paimon::SnapshotInfo; the kind as `CommitKindToString` writes it.
pub record SnapshotInfo : Type 0 where
  pub snapshot_id : ℤ
  pub schema_id : ℤ
  pub commit_user : String
  pub commit_kind : String
  pub time_millis : ℤ
  pub total_record_count : Option ℤ
  pub delta_record_count : Option ℤ
  pub watermark : Option ℤ

-- A value of a row, with its type; a row that is read back may have any other.
pub data Cell : Type 0 where
  bigint_cell timestamp_cell : ℤ → Cell
  varchar_cell : String → Cell
  null_bigint : Cell
  other_cell : LogicalTypeId → Cell

-- `SnapshotTypes`
abbrev pub snapshot_types : List LogicalTypeId
snapshot_types = bigint ∷ bigint ∷ varchar ∷ varchar ∷ timestamp ∷ bigint ∷ bigint ∷ bigint ∷ []

-- `row[col].type() == types[col]`, for the types of a snapshot's columns.
unfoldable pub has_type : LogicalTypeId → Cell → Bool
has_type bigint (bigint_cell z) = true
has_type bigint null_bigint = true
has_type varchar (varchar_cell text) = true
has_type timestamp (timestamp_cell z) = true
has_type _ _ = false

-- `snapshot.time_millis * 1000`, in an int64_t.
unfoldable pub thousandfold : ℤ → ℤ
thousandfold millis = wrap_int64 (millis *ℤ 1000)

unfoldable pub optional_cell : Option ℤ → Cell
optional_cell none = null_bigint
optional_cell (some z) = bigint_cell z

unfoldable pub row_of : SnapshotInfo → List Cell
row_of s =
    bigint_cell s.snapshot_id
    ∷ bigint_cell s.schema_id
    ∷ varchar_cell s.commit_user
    ∷ varchar_cell s.commit_kind
    ∷ timestamp_cell (thousandfold s.time_millis)
    ∷ optional_cell s.total_record_count
    ∷ optional_cell s.delta_record_count
    ∷ optional_cell s.watermark
    ∷ []

-- The loop over the columns.
unfoldable pub check_types : List LogicalTypeId → List Cell → Result (Unit {0})
check_types (type ∷ types) (cell ∷ row) =
    let later = check_types types row in
    throw_if (not (has_type type cell))
      (serialization "Paimon snapshot row has an invalid column type")
    >> later
check_types _ _ = ok tt

unfoldable pub check_row : List Cell → Result (Unit {0})
check_row row =
    throw_if (not (eqb (length row) (length snapshot_types)))
      (serialization "Paimon snapshot row has an invalid column count")
    >> check_types snapshot_types row

unfoldable pub check_rows : List (List Cell) → Result (Unit {0})
check_rows [] = ok tt
check_rows (row ∷ rows) = check_row row >> check_rows rows

-- The serializer's property "rows", written and read.
pub record RowCodec : Type 0 where
  pub write : List (List Cell) → Text
  pub read : Text → Result (List (List Cell))

unfoldable pub serialize_rows : RowCodec → List (List Cell) → Text
serialize_rows codec rows = codec.write rows

unfoldable pub deserialize_rows : RowCodec → Text → Result (List (List Cell))
deserialize_rows codec bytes = codec.read bytes >>= λ rows. check_rows rows >> ok rows

optional_cell-bigint : (o : Option ℤ) → has_type bigint (optional_cell o) ≡ true
unfolding has_type optional_cell
optional_cell-bigint none = refl
optional_cell-bigint (some z) = refl

module _ (platform : ScanPlatform) (env : Environment) (keys : CatalogKeys)
    (list_snapshots : ScanCatalog → String → String → Outcome (List SnapshotInfo)) where
  -- `PaimonSnapshotsBind`: the rows.
  unfoldable pub snapshots_bind : List Text → Map String → Result (List (List Cell))
  snapshots_bind inputs parameters = do
    path ← parse platform.db_suffix inputs
    catalog ← create_paimon_catalog platform env keys (platform.string_of path.warehouse) parameters
    snapshots ← or_raise (
        list_snapshots catalog (platform.string_of path.dbname) (platform.string_of path.tablename))
    ok (map row_of snapshots)

  row_of-checks : (s : SnapshotInfo) → check_row (row_of s) ≡ ok tt
  unfolding check_row check_types row_of has_type optional_cell
  row_of-checks s =
      rw
        (
          optional_cell-bigint s.total_record_count,
          optional_cell-bigint s.delta_record_count,
          optional_cell-bigint s.watermark,
        )
        refl

  map-row_of-checks : (snapshots : List SnapshotInfo) → check_rows (map row_of snapshots) ≡ ok tt
  unfolding check_rows
  map-row_of-checks [] = refl
  map-row_of-checks (s ∷ snapshots) = rw (row_of-checks s) (map-row_of-checks snapshots)

  -- The rows that a bind makes have the types of the columns, so a bound plan that is written and read back
  -- by a serializer that keeps these rows is accepted, with the same rows.
  pub deserialize_rows-snapshots_bind :
      (codec : RowCodec) (inputs : List Text) (parameters : Map String) (rows : List (List Cell))
      → snapshots_bind inputs parameters ≡ ok rows
      → codec.read (codec.write rows) ≡ ok rows
      → deserialize_rows codec (serialize_rows codec rows) ≡ ok rows
  unfolding snapshots_bind deserialize_rows serialize_rows
  deserialize_rows-snapshots_bind codec inputs parameters rows h kept =
      let (path, e1, h1) = >>=-eq-ok (parse platform.db_suffix inputs) _ h in
      let (catalog, e2, h2) =
        >>=-eq-ok (create_paimon_catalog platform env keys _ parameters) _ h1 in
      let (snapshots, e3, h3) = >>=-eq-ok (or_raise (list_snapshots catalog _ _)) _ h2 in
      let same : map row_of snapshots ≡ rows = cc in
      let checked : check_rows rows ≡ ok tt =
        subst (λ x. check_rows x ≡ ok tt) same (map-row_of-checks snapshots) in
      rw (kept, checked) refl
