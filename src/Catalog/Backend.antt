-- ===== src/Catalog/Backend.antt =====
-- What the catalog code calls of paimon-cpp's Catalog and of DuckDB: the stored databases and tables
-- are a state that the calls read and change.
use duckdb_paimon.Prelude.{String, Bool, Option, List, Map}
use duckdb_paimon.Sql.{LogicalType, Result}
use duckdb_paimon.Paimon.{Outcome, Status}

-- What `PaimonSchemaEntry::CreateTable` sends for a new table; `arrow` is the converted schema.
pub record TableRequest : Type 0 where
  pub column_names : List String
  pub column_types : List LogicalType
  pub partition_keys : List String
  pub primary_keys : List String
  pub options : Map String
  pub ignore_if_exists : Bool

-- A status is none where it is `ok()`. Null pointers are none.
pub record Backend : Type 1 where
  pub Store : Type 0
  pub Schema : Type 0
  pub ArrowSchema : Type 0
  pub load_table_schema : Store → String → String → Outcome (Option Schema)
  pub get_arrow_schema : Schema → Outcome (Option ArrowSchema)
  -- `PopulateArrowTableSchema`, which may throw: the names and the types.
  pub arrow_columns : ArrowSchema → Result (List String × List LogicalType)
  pub list_tables : Store → String → Outcome (List String)
  pub list_databases : Store → Outcome (List String)
  pub create_table : Store → String → String → TableRequest → Option Status × Store
  pub drop_table : Store → String → String → Bool → Option Status × Store
  pub create_database : Store → String → Bool → Option Status × Store
  pub drop_database : Store → String → Bool → Bool → Option Status × Store
  -- `StringUtil::Lower`, by which the keys of a case-insensitive map are compared.
  pub lower : String → String
