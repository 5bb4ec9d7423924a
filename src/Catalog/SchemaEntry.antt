-- ===== src/Catalog/SchemaEntry.antt =====
-- src/paimon_storage/paimon_schema_entry.cpp: creating, dropping and looking up the tables of a
-- schema. The state is the store of paimon-cpp and the schema's table set.
use duckdb_paimon.Prelude.{
  ℕ, Bool, true, false, ◌||◌, String, Option, none, some, List, [], ◌∷◌, ◌++◌, get_elem?, Map,
  assign, if◌then◌else◌,
}
use duckdb_paimon.Sql.{
  LogicalType, Exception, Result, ok, throw, throw_if, io_exception, invalid_input,
  catalog_exception, not_implemented, internal_exception, ◌>>=◌, ◌>>◌,
}
use duckdb_paimon.Paimon.{Status}
use duckdb_paimon.Catalog.Backend.{Backend, TableRequest}
use duckdb_paimon.Catalog.TableSet.{
  TableEntry, TableSet, get_entry, scan, refresh_entry, drop_entry,
}

pub data OnConflict : Type 0 where
  error_on_conflict ignore_on_conflict replace_on_conflict alter_on_conflict : OnConflict

-- A unique constraint names its column by index or lists its columns; the flag is `IsPrimaryKey`.
pub data Constraint : Type 0 where
  unique_index : Bool → ℕ → Constraint
  unique_names : Bool → List String → Constraint
  other_constraint : Constraint

-- A parsed expression; the text of a null constant is none.
pub data ParsedExpression : Type 0 where
  column_ref : String → ParsedExpression
  value_constant : Option String → ParsedExpression
  other_expression : ParsedExpression

pub record CreateTableInfo : Type 0 where
  pub table : String
  pub column_names : List String
  pub column_types : List LogicalType
  pub on_conflict : OnConflict
  pub constraints : List Constraint
  pub partition_keys : List ParsedExpression
  pub options : Map ParsedExpression

unfoldable pub primary_key_columns : List String → Constraint → Result (List String)
primary_key_columns names (unique_index true i) = elim (get_elem? names i) [
  | none ↦ throw (internal_exception "Attempted to access index within vector out of range")
  | some name ↦ ok (name ∷ [])
]
primary_key_columns names (unique_names true columns) = ok columns
primary_key_columns names _ = ok []

unfoldable pub primary_keys : List String → List Constraint → Result (List String)
primary_keys names [] = ok []
primary_keys names (c ∷ constraints) = do
  first ← primary_key_columns names c
  later ← primary_keys names constraints
  ok (first ++ later)

-- The loop over the partition expressions, which `PlanCreateTableAs` has too.
unfoldable pub partition_columns : List ParsedExpression → Result (List String)
partition_columns [] = ok []
partition_columns (column_ref name ∷ expressions) = do
  later ← partition_columns expressions
  ok (name ∷ later)
partition_columns (_ ∷ expressions) =
    throw (invalid_input "Paimon partition key must be a column reference")

-- The loop over the options, with the options set so far.
unfoldable pub table_options : Map String → Map ParsedExpression → Result (Map String)
table_options result [] = ok result
table_options result ((key, value_constant none) ∷ options) = table_options result options
table_options result ((key, value_constant (some text)) ∷ options) =
    table_options (assign key text result) options
table_options result ((key, column_ref name) ∷ options) =
    table_options (assign key name result) options
table_options result ((key, other_expression) ∷ options) =
    throw (invalid_input "Paimon table option must be a literal value")

abbrev is_replace : OnConflict → Bool
is_replace OnConflict.replace_on_conflict = true
is_replace _ = false

abbrev is_ignore : OnConflict → Bool
is_ignore OnConflict.ignore_on_conflict = true
is_ignore _ = false

-- What is sent to paimon-cpp, after the checks.
unfoldable pub table_request : CreateTableInfo → Result TableRequest
table_request info = do
  throw_if (is_replace info.on_conflict)
      (not_implemented "CREATE OR REPLACE TABLE is not supported for Paimon tables")
  keys ← primary_keys info.column_names info.constraints
  parts ← partition_columns info.partition_keys
  options ← table_options [] info.options
  ok (record {
    column_names = info.column_names;
    column_types = info.column_types;
    partition_keys = parts;
    primary_keys = keys;
    options = options;
    ignore_if_exists = is_ignore info.on_conflict;
  })

-- The exception for a status that is not `ok()`.
unfoldable pub status_exception : Status → Exception
status_exception e =
    if e.is_exist || e.is_not_exist then catalog_exception e.text else io_exception e.text

-- The catalog types that the handlers tell apart.
pub data CatalogType : Type 0 where
  table_entry other_type : CatalogType

module _ (b : Backend) (schema : String) where
  -- What the store has answered decides whether the set is refreshed.
  unfoldable pub after_create :
      String → TableSet → Option Status × b.Store → Result (Option TableEntry) × b.Store × TableSet
  after_create name tables (some e, store) = (throw (status_exception e), store, tables)
  after_create name tables (none, store) =
      let refreshed = refresh_entry b schema store tables name in (refreshed.0, store, refreshed.1)

  unfoldable pub send_create :
      b.Store
      → TableSet
      → String
      → Result TableRequest
      → Result (Option TableEntry) × b.Store × TableSet
  send_create store tables name (throw e) = (throw e, store, tables)
  send_create store tables name (ok request) =
      after_create name tables (b.create_table store schema name request)

  -- `CreateTable`
  unfoldable pub create_table :
      b.Store → TableSet → CreateTableInfo → Result (Option TableEntry) × b.Store × TableSet
  create_table store tables info = send_create store tables info.table (table_request info)

  unfoldable pub after_drop :
      String → TableSet → Option Status × b.Store → Result (Unit {0}) × b.Store × TableSet
  after_drop name tables (some e, store) = (throw (status_exception e), store, tables)
  after_drop name tables (none, store) = (ok tt, store, drop_entry b schema tables name)

  -- `DropEntry`; the flag is `OnEntryNotFound::RETURN_NULL`.
  unfoldable pub drop_table :
      b.Store → TableSet → CatalogType → String → Bool → Result (Unit {0}) × b.Store × TableSet
  drop_table store tables CatalogType.other_type name ignore_if_not_exists =
      (throw (not_implemented "Only dropping tables is supported"), store, tables)
  drop_table store tables CatalogType.table_entry name ignore_if_not_exists =
      after_drop name tables (b.drop_table store schema name ignore_if_not_exists)

  -- `LookupEntry`
  unfoldable pub lookup_entry :
      b.Store → TableSet → CatalogType → String → Result (Option TableEntry) × TableSet
  lookup_entry store tables CatalogType.other_type name = (ok none, tables)
  lookup_entry store tables CatalogType.table_entry name = get_entry b schema store tables name

  -- `Scan` of a schema
  unfoldable pub scan_schema :
      b.Store → TableSet → CatalogType → Result (List TableEntry) × TableSet
  scan_schema store tables CatalogType.other_type = (ok [], tables)
  scan_schema store tables CatalogType.table_entry = scan b schema store tables
