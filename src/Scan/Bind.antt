-- ===== src/Scan/Bind.antt =====
-- src/paimon_storage/paimon_scan.cpp: `PaimonScanBind`, from the arguments of `paimon_scan` to its bind data.
use duckdb_paimon.Prelude.{
  ℕ, String, Bool, false, Option, none, some, List, [], Map, lookup, is_empty,
}
use duckdb_paimon.Prelude.Int.{ℤ, pos, negsuc}
use duckdb_paimon.Sql.{LogicalType, Result, ok, throw, io_exception, invalid_input, ◌>>=◌}
use duckdb_paimon.Paimon.{Outcome, value, status}
use duckdb_paimon.TablePath.{Text, PaimonTablePath, parse}
use duckdb_paimon.Catalog.Options.{Environment, CatalogKeys, get_paimon_options}
use duckdb_paimon.DistributedScan.Transport.{initialize_distributed}
use duckdb_paimon.Scan.{ScanPhase, ScanBindData}

-- What a schema that is a `paimon::DataSchema` has more.
pub record DataPart : Type 0 where
  pub id : ℤ
  pub partition_keys : List String
  pub primary_keys : List String

-- paimon::Schema. A null pointer is none; `PopulateArrowTableSchema` gives names and types or throws.
pub record ScanSchema : Type 0 where
  pub data_part : Option DataPart
  pub json : Outcome String
  pub arrow_schema : Outcome (Option (Result (List String × List LogicalType)))

-- The calls of paimon::Catalog on a database and a table.
pub record ScanCatalog : Type 0 where
  pub table_location : String → String → Outcome String
  pub load_table_schema : String → String → Outcome (Option ScanSchema)

-- `paimon::Catalog::DB_SUFFIX`, the characters of a text as a string, `GetValue<int64_t>` of an option's text,
-- and `paimon::Catalog::Create`.
pub record ScanPlatform : Type 0 where
  pub db_suffix : Text
  pub string_of : Text → String
  pub read_int64 : String → Result ℤ
  pub create : String → Map String → Outcome ScanCatalog

abbrev pub or_raise : {A : Type 0} → Outcome A → Result A
or_raise (value a) = ok a
or_raise (status e) = throw (io_exception e.text)

abbrev pub present : {A : Type 0} → String → Option A → Result A
present message none = throw (io_exception message)
present message (some a) = ok a

unfoldable pub non_negative : ℤ → Result (Option ℕ)
non_negative (pos n) = ok (some n)
non_negative (negsuc n) = throw (invalid_input "'debug_expected_splits' must be non-negative")

abbrev pub keys_of : Option DataPart → List String
keys_of none = []
keys_of (some part) = part.partition_keys

abbrev id_of : Option DataPart → ℤ
id_of none = negsuc 0
id_of (some part) = part.id

abbrev is_append_only : Option DataPart → Bool
is_append_only none = false
is_append_only (some part) = is_empty part.primary_keys

module _ (platform : ScanPlatform) (env : Environment) (keys : CatalogKeys) where
  unfoldable pub expected_splits : Option String → Result (Option ℕ)
  expected_splits none = ok none
  expected_splits (some text) = platform.read_int64 text >>= non_negative

  -- `CreatePaimonCatalog`
  unfoldable pub create_paimon_catalog : String → Map String → Result ScanCatalog
  create_paimon_catalog path input = do
    options ← get_paimon_options env keys path input
    or_raise (platform.create path options)

module _ {Predicate Split : Type 0} where
  -- The bind data of a table, with the defaults of the fields that the bind leaves.
  unfoldable pub bind_data_of :
      PaimonTablePath
      → String
      → Map String
      → Option ℕ
      → Option DataPart
      → String
      → List String × List LogicalType
      → ScanBindData Predicate Split
  bind_data_of path table_data_path options expected part json (names, types) = record {
    path = path;
    table_data_path = table_data_path;
    paimon_options = options;
    arrow_names = names;
    arrow_types = types;
    predicates = none;
    part_keys = keys_of part;
    part_filters = [];
    debug_expected_splits = expected;
    table_schema_json = json;
    distributed = record {
      phase = ScanPhase.coordinator;
      split_set_id = [];
      has_snapshot = false;
      snapshot_id = pos 0;
      schema_id = id_of part;
      append_only = is_append_only part;
      return_types = types;
      return_names = names;
      portable_options = [];
      assigned_splits = [];
    };
  }

  module _ (platform : ScanPlatform) (env : Environment) (keys : CatalogKeys) where
    -- The part of `PaimonScanBind` behind the schema.
    unfoldable pub bind_schema :
        PaimonTablePath
        → String
        → Map String
        → Option ℕ
        → Text
        → ScanSchema
        → Result (ScanBindData Predicate Split)
    bind_schema path table_data_path options expected uuid schema = do
      json ← or_raise schema.json
      arrow ← or_raise schema.arrow_schema
      columns ← present "Paimon Arrow schema is empty" arrow >>= (λ columns. columns)
      initialize_distributed uuid
          (bind_data_of path table_data_path options expected schema.data_part json columns)

    -- `PaimonScanBind` of the arguments' texts and the named parameters, with a new random identifier. The
    -- names and types that it returns are `arrow_names` and `arrow_types`.
    unfoldable pub scan_bind : Text → List Text → Map String → Result (ScanBindData Predicate Split)
    scan_bind uuid inputs parameters = do
      path ← parse platform.db_suffix inputs
      expected ← expected_splits platform env keys (lookup "debug_expected_splits" parameters)
      options ← get_paimon_options env keys (platform.string_of path.warehouse) parameters
      catalog ←
          create_paimon_catalog platform env keys (platform.string_of path.warehouse) parameters
      table_data_path ← or_raise (
          catalog.table_location (platform.string_of path.dbname)
            (platform.string_of path.tablename))
      answer ← or_raise (
          catalog.load_table_schema (platform.string_of path.dbname)
            (platform.string_of path.tablename))
      schema ← present "Paimon table schema is empty" answer
      bind_schema path table_data_path options expected uuid schema
