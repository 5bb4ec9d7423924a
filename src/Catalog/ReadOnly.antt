-- ===== src/Catalog/ReadOnly.antt =====
-- What a catalog on an object store refuses.
use duckdb_paimon.Prelude.{◌≡◌, refl, String, true, ◌||◌, Option, some, List, Map}
use mathlib.Core.Path.{subst}
use duckdb_paimon.Sql.{LogicalType, Exception, ok, throw, permission_exception, >>=-eq-ok}
use duckdb_paimon.Catalog.SchemaEntry.{CreateTableInfo}
use duckdb_paimon.Catalog.Options.{Environment, CatalogKeys, is_s3, is_oss}
use duckdb_paimon.Scan.Bind.{ScanPlatform, create_paimon_catalog}
use duckdb_paimon.DistributedInsert.Operator.{coordinator_catalog}
use duckdb_paimon.Catalog.Plans.{
  AccessMode, is_read_only, AttachedCatalog, schema_ref, attach_mode, attach, plan_create_table_as,
  plan_insert,
}

abbrev pub refusal : Exception
refusal = permission_exception "Cannot write to a read-only Paimon catalog"

module _ (platform : ScanPlatform) (env : Environment) (keys : CatalogKeys) where
  -- Neither plan is made, and the coordinator of a distributed write refuses too.
  pub record RefusesWrites (a : AttachedCatalog) : Type 0 where
    pub marked : a.database_read_only ≡ true
    pub inserts :
        (schema table : String) (plan : Option (List LogicalType))
        → plan_insert platform env keys a schema table plan ≡ throw refusal
    pub creates :
        (schema : String) (info : CreateTableInfo) (types : List LogicalType)
        → plan_create_table_as platform env keys a schema info types ≡ throw refusal
    pub coordinates :
        (schema : String) → coordinator_catalog (some (schema_ref a schema)) ≡ throw refusal

  read_only-RefusesWrites :
      (a : AttachedCatalog)
      → is_read_only a.access_mode ≡ true
      → a.database_read_only ≡ true
      → RefusesWrites a
  unfolding plan_insert plan_create_table_as coordinator_catalog
  read_only-RefusesWrites a h m = record {
    marked = m;
    inserts = λ schema table plan. rw h refl;
    creates = λ schema info types. rw h refl;
    coordinates = λ schema. rw h refl;
  }

  of_made :
      (made a : AttachedCatalog)
      → is_read_only made.access_mode ≡ true
      → made.database_read_only ≡ true
      → ok made ≡ ok a
      → RefusesWrites a
  of_made made a h m same =
      let equal : made ≡ a = cc in subst RefusesWrites equal (read_only-RefusesWrites made h m)

  -- A warehouse on S3 or OSS, in any spelling of its prefix, is attached read-only whatever mode the ATTACH asks
  -- for: no INSERT and no CREATE TABLE AS is planned on it, and no distributed write is coordinated.
  pub attach-RefusesWrites :
      (path : String) (options : Map String) (mode : AccessMode) (a : AttachedCatalog)
      → (is_s3 env keys path || is_oss env keys path) ≡ true
      → attach platform env keys path options mode ≡ ok a
      → RefusesWrites a
  unfolding attach attach_mode
  attach-RefusesWrites path options mode a store h =
      let (catalog, e, h1) = >>=-eq-ok (create_paimon_catalog platform env keys path options) _ h in
      let mode_kept : is_read_only (attach_mode platform env keys path mode) ≡ true =
        rw store refl in
      of_made
        (record {
          path = path;
          access_mode = attach_mode platform env keys path mode;
          attached_options = options;
          paimon_catalog = catalog;
          database_read_only = is_read_only (attach_mode platform env keys path mode);
        })
        a mode_kept mode_kept h1
