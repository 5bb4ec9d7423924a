-- ===== src/Catalog/SchemaSet.antt =====
-- src/paimon_storage/paimon_schema_set.cpp and the schema operations of paimon_catalog.cpp. A schema
-- entry owns the cache of its tables.
use duckdb_paimon.Prelude.{
  Bool, true, false, String, Option, none, some, List, [], ◌∷◌, map, Map, lookup, emplace, erase,
  if◌then◌else◌,
}
use duckdb_paimon.Sql.{Result, ok, throw, io_exception, catalog_exception}
use duckdb_paimon.Paimon.{Outcome, value, status, Status}
use duckdb_paimon.Catalog.Backend.{Backend}
use duckdb_paimon.Catalog.TableSet.{TableSet, no_tables}
use duckdb_paimon.Catalog.SchemaEntry.{status_exception}

pub record SchemaEntry : Type 0 where
  pub name : String
  pub tables : TableSet

pub record SchemaSet : Type 0 where
  pub inited : Bool
  pub entries : Map SchemaEntry

module _ (b : Backend) where
  unfoldable pub new_schema : String → SchemaEntry
  new_schema name = record { name = name; tables = no_tables }

  -- `CreateEntry`'s `emplace`, which keeps an entry that is there.
  unfoldable pub add_schema : String → Map SchemaEntry → Map SchemaEntry
  add_schema name entries = emplace (b.lower name) (new_schema name) entries

  -- The loop of `LoadEntries`.
  unfoldable pub add_each : List String → Map SchemaEntry → Map SchemaEntry
  add_each [] entries = entries
  add_each (name ∷ names) entries = add_each names (add_schema name entries)

  unfoldable pub load_schemas_from :
      SchemaSet → Bool → Outcome (List String) → Result (Unit {0}) × SchemaSet
  load_schemas_from set true listed = (ok tt, set)
  load_schemas_from set false (status e) = (throw (io_exception e.text), set)
  load_schemas_from set false (value names) =
      (ok tt, record { inited = true; entries = add_each names set.entries })

  -- `LoadEntries`
  unfoldable pub load_schemas : b.Store → SchemaSet → Result (Unit {0}) × SchemaSet
  load_schemas store set = load_schemas_from set set.inited (b.list_databases store)

  unfoldable pub find_schema : SchemaSet → String → Option SchemaEntry
  find_schema set name = lookup (b.lower name) set.entries

  unfoldable pub get_loaded :
      String → Result (Unit {0}) × SchemaSet → Result (Option SchemaEntry) × SchemaSet
  get_loaded name (throw e, set) = (throw e, set)
  get_loaded name (ok u, set) = (ok (find_schema set name), set)

  -- `GetEntry`
  unfoldable pub get_schema : b.Store → SchemaSet → String → Result (Option SchemaEntry) × SchemaSet
  get_schema store set name = get_loaded name (load_schemas store set)

  unfoldable pub scan_from : Result (Unit {0}) × SchemaSet → Result (List SchemaEntry) × SchemaSet
  scan_from (throw e, set) = (throw e, set)
  scan_from (ok u, set) = (ok (map (λ kv. kv.1) set.entries), set)

  -- `Scan`, with what the callback is given.
  unfoldable pub scan_schemas : b.Store → SchemaSet → Result (List SchemaEntry) × SchemaSet
  scan_schemas store set = scan_from (load_schemas store set)

  unfoldable pub create_schema_entry : SchemaSet → String → Option SchemaEntry × SchemaSet
  create_schema_entry set name =
      let next : SchemaSet = record set { entries = add_schema name set.entries } in
      (find_schema next name, next)

  unfoldable pub drop_schema_entry : SchemaSet → String → SchemaSet
  drop_schema_entry set name = record set { entries = erase (b.lower name) set.entries }

  unfoldable pub after_create_database :
      String
      → SchemaSet
      → Option Status × b.Store
      → Result (Option SchemaEntry) × b.Store × SchemaSet
  after_create_database name set (some e, store) = (throw (status_exception e), store, set)
  after_create_database name set (none, store) =
      (ok (create_schema_entry set name).0, store, (create_schema_entry set name).1)

  -- `PaimonCatalog::CreateSchema`
  unfoldable pub create_schema :
      b.Store → SchemaSet → String → Bool → Result (Option SchemaEntry) × b.Store × SchemaSet
  create_schema store set name ignore_if_exists =
      after_create_database name set (b.create_database store name ignore_if_exists)

  unfoldable pub after_drop_database :
      String → SchemaSet → Option Status × b.Store → Result (Unit {0}) × b.Store × SchemaSet
  after_drop_database name set (some e, store) = (throw (status_exception e), store, set)
  after_drop_database name set (none, store) = (ok tt, store, drop_schema_entry set name)

  -- `PaimonCatalog::DropSchema`
  unfoldable pub drop_schema :
      b.Store → SchemaSet → String → Bool → Bool → Result (Unit {0}) × b.Store × SchemaSet
  drop_schema store set name ignore_if_not_exists cascade =
      after_drop_database name set (b.drop_database store name ignore_if_not_exists cascade)

  unfoldable pub require_schema :
      Bool → Result (Option SchemaEntry) × SchemaSet → Result (Option SchemaEntry) × SchemaSet
  require_schema throw_exception (ok none, set) =
      ((if throw_exception then throw (catalog_exception "Schema not found") else ok none), set)
  require_schema throw_exception (ok (some entry), set) = (ok (some entry), set)
  require_schema throw_exception (throw e, set) = (throw e, set)

  -- `PaimonCatalog::LookupSchema`; the flag is `OnEntryNotFound::THROW_EXCEPTION`.
  unfoldable pub lookup_schema :
      b.Store → SchemaSet → String → Bool → Result (Option SchemaEntry) × SchemaSet
  lookup_schema store set name throw_exception =
      require_schema throw_exception (get_schema store set name)
