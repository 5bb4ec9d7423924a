-- ===== src/Tests/SnapshotBindTests.antt =====
-- The rows of one snapshot, read back.
use duckdb_paimon.Prelude.{◌≡◌, refl, String, none, some, List, [], ◌∷◌, assign, emplace}
use duckdb_paimon.Prelude.Int.{pos, negsuc, ◌*ℤ◌, wrap_int64}
use duckdb_paimon.Sql.{ok}
use duckdb_paimon.Paimon.{Outcome, value}
use duckdb_paimon.TablePath.{Text, parse}
use duckdb_paimon.Catalog.Options.{
  get_paimon_options, metastore_options, metastore_from, try_get, ci_equals, format_option,
  secret_options, file_system, is_oss, is_s3, snapshot_options,
}
use duckdb_paimon.Scan.Bind.{ScanCatalog, create_paimon_catalog}
use duckdb_paimon.Snapshots.Bind.{
  SnapshotInfo, Cell, bigint_cell, timestamp_cell, varchar_cell, null_bigint, RowCodec, row_of,
  thousandfold, optional_cell, snapshots_bind, serialize_rows, deserialize_rows,
  deserialize_rows-snapshots_bind,
}
use duckdb_paimon.Tests.WriteSample.{environment, keys}
use duckdb_paimon.Tests.TableEntryTests.{scan_platform}

abbrev one_snapshot : ScanCatalog → String → String → Outcome (List SnapshotInfo)
one_snapshot catalog db t = value (
    record {
      snapshot_id = pos 1;
      schema_id = pos 0;
      commit_user = "u";
      commit_kind = "APPEND";
      time_millis = negsuc 0;
      total_record_count = some (pos 5);
      delta_record_count = none;
      watermark = none;
    }
    ∷ [])

-- A millisecond before the epoch is a thousand microseconds before it.
abbrev listed : List (List Cell)
listed =
    (bigint_cell (pos 1)
      ∷ bigint_cell (pos 0)
      ∷ varchar_cell "u"
      ∷ varchar_cell "APPEND"
      ∷ timestamp_cell (negsuc 999)
      ∷ bigint_cell (pos 5)
      ∷ null_bigint
      ∷ null_bigint
      ∷ [])
    ∷ []

abbrev row_codec : RowCodec
row_codec = record { write = λ rows. []; read = λ bytes. ok listed }

abbrev arguments : List Text
arguments = (b'/' ∷ b'w' ∷ []) ∷ (b'd' ∷ []) ∷ (b't' ∷ []) ∷ []

rows_listed :
    snapshots_bind scan_platform environment keys.catalog one_snapshot arguments [] ≡ ok listed
unfolding snapshots_bind row_of thousandfold wrap_int64 ◌*ℤ◌ optional_cell parse
    create_paimon_catalog get_paimon_options metastore_options metastore_from try_get ci_equals
    format_option secret_options file_system is_oss is_s3 snapshot_options assign emplace
rows_listed = refl

deserialize_rows-snapshots_bind_example :
    deserialize_rows row_codec (serialize_rows row_codec listed) ≡ ok listed
deserialize_rows-snapshots_bind_example =
    deserialize_rows-snapshots_bind scan_platform environment keys.catalog one_snapshot row_codec
      arguments [] listed rows_listed refl
