-- ===== src/Tests/PlanTests.antt =====
-- A warehouse on S3, which is attached read-only.
use duckdb_paimon.Prelude.{◌≡◌, refl, true, false, none, some, [], ◌∷◌, assign, emplace}
use duckdb_paimon.Sql.{ok}
use duckdb_paimon.Catalog.Options.{
  get_paimon_options, metastore_options, metastore_from, try_get, ci_equals, format_option,
  secret_options, file_system, is_oss, is_s3, snapshot_options,
}
use duckdb_paimon.Scan.Bind.{create_paimon_catalog}
use duckdb_paimon.Catalog.Plans.{
  AccessMode, AttachedCatalog, attach_mode, attach, new_insert, schema_ref, plan_insert,
}
use duckdb_paimon.Catalog.ReadOnly.{RefusesWrites, attach-RefusesWrites}
use duckdb_paimon.Tests.WriteSample.{environment, keys}
use duckdb_paimon.Tests.SampleWire.{int_type}
use duckdb_paimon.Tests.TableEntryTests.{stored, scan_platform}

abbrev on_s3 : AttachedCatalog
on_s3 = record {
  path = "s3://b/w";
  access_mode = AccessMode.read_only;
  attached_options = [];
  paimon_catalog = stored;
  database_read_only = true;
}

attached :
    attach scan_platform environment keys.catalog "s3://b/w" [] AccessMode.read_write ≡ ok on_s3
unfolding attach attach_mode create_paimon_catalog get_paimon_options metastore_options
    metastore_from try_get ci_equals format_option secret_options file_system is_oss is_s3
    snapshot_options assign emplace
attached = refl

attach-RefusesWrites_example : RefusesWrites scan_platform environment keys.catalog on_s3
unfolding is_s3 is_oss
attach-RefusesWrites_example =
    attach-RefusesWrites scan_platform environment keys.catalog "s3://b/w" [] AccessMode.read_write
      on_s3 refl attached

-- A warehouse on a local disk, and an INSERT into its table.
abbrev on_disk : AttachedCatalog
on_disk = record on_s3 {
  path = "/w";
  access_mode = AccessMode.read_write;
  database_read_only = false;
}

insert_planned :
    plan_insert scan_platform environment keys.catalog on_disk "db" "t" (some (int_type ∷ []))
    ≡ ok (
        new_insert
          (schema_ref on_disk "db")
          none
          "t"
          (("file-system", "local") ∷ ("read.batch-size", "2048") ∷ [])
          ("a" ∷ [])
          ((int_type ∷ []) ∷ [])
          true)
unfolding plan_insert get_paimon_options metastore_options metastore_from try_get ci_equals
    format_option secret_options file_system is_oss is_s3 snapshot_options assign emplace
insert_planned = refl
