-- ===== src/Catalog/TableSet.antt =====
-- src/paimon_storage/paimon_table_set.cpp: the tables of a schema, loaded when they are asked for. An
-- operation gives its result and the set that it leaves behind, which may have changed where it
-- throws.
use duckdb_paimon.Prelude.{
  Bool, true, false, not, String, Option, none, some, List, [], ◌∷◌, map, eqb, length, Map, lookup,
  emplace, erase, if◌then◌else◌,
}
use duckdb_paimon.Sql.{LogicalType, Result, ok, throw, throw_if, io_exception, ◌>>=◌, ◌>>◌}
use duckdb_paimon.Paimon.{Outcome, value, status}
use duckdb_paimon.Catalog.Backend.{Backend}

-- A `PaimonTableEntry` with the columns of its `CreateTableInfo`.
pub record TableEntry : Type 0 where
  pub name : String
  pub columns : List (String × LogicalType)

-- `entries` is a case-insensitive map: the keys are in lower case.
pub record TableSet : Type 0 where
  pub inited : Bool
  pub entries : Map TableEntry

abbrev pub no_tables : TableSet
no_tables = record { inited = false; entries = [] }

-- The loop of `AddColumn`.
unfoldable pub zip_columns : List String → List LogicalType → List (String × LogicalType)
zip_columns [] types = []
zip_columns (name ∷ names) [] = []
zip_columns (name ∷ names) (type ∷ types) = (name, type) ∷ zip_columns names types

-- The rest of a loop body, which an exception skips.
unfoldable pub unless_thrown :
    Result (Option TableEntry) × TableSet
    → (TableSet → Result (Unit {0}) × TableSet)
    → Result (Unit {0}) × TableSet
unless_thrown (throw e, tables) rest = (throw e, tables)
unless_thrown (ok entry, tables) rest = rest tables

module _ (b : Backend) (schema : String) where
  unfoldable pub columns_of : b.Schema → Result (List (String × LogicalType))
  columns_of table_schema = elim (b.get_arrow_schema table_schema) [
    | status e ↦ throw (io_exception e.text)
    | value none ↦ throw (io_exception "Paimon Arrow schema is empty")
    | value (some arrow) ↦ do
      columns ← b.arrow_columns arrow
      throw_if (not (eqb (length columns.0) (length columns.1)))
          (io_exception "col_name and col_types differ")
      ok (zip_columns columns.0 columns.1)
  ]

  -- The part of `BuildEntry` that reads the store; none where the table does not exist.
  unfoldable pub entry_of : String → Outcome (Option b.Schema) → Result (Option TableEntry)
  entry_of name (status e) = if e.is_not_exist then ok none else throw (io_exception e.text)
  entry_of name (value none) = throw (io_exception "Paimon table schema is empty")
  entry_of name (value (some table_schema)) = do
    columns ← columns_of table_schema
    ok (some (record { name = name; columns = columns }))

  unfoldable pub read_entry : b.Store → String → Result (Option TableEntry)
  read_entry store name = entry_of name (b.load_table_schema store schema name)

  unfoldable pub find_entry : TableSet → String → Option TableEntry
  find_entry tables name = lookup (b.lower name) tables.entries

  unfoldable pub emplace_entry : TableSet → String → TableEntry → TableSet
  emplace_entry tables name entry = record tables {
    entries = emplace (b.lower name) entry tables.entries;
  }

  -- `BuildEntry`: what the cache has, and else what the store has.
  unfoldable pub build_from :
      String
      → TableSet
      → Option TableEntry
      → Result (Option TableEntry)
      → Result (Option TableEntry) × TableSet
  build_from name tables (some entry) read = (ok (some entry), tables)
  build_from name tables none (throw e) = (throw e, tables)
  build_from name tables none (ok none) = (ok none, tables)
  build_from name tables none (ok (some entry)) = (ok (some entry), emplace_entry tables name entry)

  unfoldable pub build_entry : b.Store → TableSet → String → Result (Option TableEntry) × TableSet
  build_entry store tables name =
      build_from name tables (find_entry tables name) (read_entry store name)

  -- The loop over the listed tables; an exception ends it.
  unfoldable pub build_each : b.Store → TableSet → List String → Result (Unit {0}) × TableSet
  build_each store tables [] = (ok tt, tables)
  build_each store tables (name ∷ names) =
      unless_thrown (build_entry store tables name) (λ next. build_each store next names)

  unfoldable pub mark_inited : Result (Unit {0}) × TableSet → Result (Unit {0}) × TableSet
  mark_inited (ok u, tables) = (ok tt, record tables { inited = true })
  mark_inited (throw e, tables) = (throw e, tables)

  unfoldable pub load_from :
      b.Store → TableSet → Bool → Outcome (List String) → Result (Unit {0}) × TableSet
  load_from store tables true listed = (ok tt, tables)
  load_from store tables false (status e) = (throw (io_exception e.text), tables)
  load_from store tables false (value names) = mark_inited (build_each store tables names)

  unfoldable pub load_entries : b.Store → TableSet → Result (Unit {0}) × TableSet
  load_entries store tables = load_from store tables tables.inited (b.list_tables store schema)

  unfoldable pub get_entry : b.Store → TableSet → String → Result (Option TableEntry) × TableSet
  get_entry store tables name = build_entry store tables name

  -- `Scan`, with the entries that the callback is given; they come in no promised order.
  unfoldable pub scan_loaded : Result (Unit {0}) × TableSet → Result (List TableEntry) × TableSet
  scan_loaded (throw e, tables) = (throw e, tables)
  scan_loaded (ok u, tables) = (ok (map (λ kv. kv.1) tables.entries), tables)

  unfoldable pub scan : b.Store → TableSet → Result (List TableEntry) × TableSet
  scan store tables = scan_loaded (load_entries store tables)

  unfoldable pub drop_entry : TableSet → String → TableSet
  drop_entry tables name = record tables { entries = erase (b.lower name) tables.entries }

  unfoldable pub refresh_entry : b.Store → TableSet → String → Result (Option TableEntry) × TableSet
  refresh_entry store tables name = build_entry store (drop_entry tables name) name

  -- `CreateEntry`, which keeps an entry that is there.
  unfoldable pub create_entry : TableSet → TableEntry → Option TableEntry × TableSet
  create_entry tables entry =
      let next = emplace_entry tables entry.name entry in (find_entry next entry.name, next)
