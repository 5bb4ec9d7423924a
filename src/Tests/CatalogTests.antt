-- ===== src/Tests/CatalogTests.antt =====
-- The theorems on the catalog at concrete inputs.
use duckdb_paimon.Prelude.{
  ◌≡◌, refl, true, false, ◌&&◌, String, ◌==◌, some, [], ◌∷◌, Map, lookup, assign, emplace, erase,
  is_some, if◌then◌else◌,
}
use duckdb_paimon.Sql.{ok, throw, catalog_exception}
use duckdb_paimon.Catalog.TableSet.{
  TableEntry, TableSet, no_tables, read_entry, entry_of, columns_of, zip_columns, find_entry,
  build_from, build_entry, refresh_entry, drop_entry,
}
use duckdb_paimon.Catalog.SchemaEntry.{
  CatalogType, OnConflict, CreateTableInfo, table_request, primary_keys, partition_columns,
  table_options, after_create, send_create, create_table, after_drop, drop_table, lookup_entry,
}
use duckdb_paimon.Catalog.Coherence.{Answers}
use duckdb_paimon.Catalog.Sessions.{Request, Reachable, serve, lookup_entry-Answers}
use duckdb_paimon.Catalog.Freshness.{create_table-reads, drop_table-reads}
use duckdb_paimon.Catalog.SchemaSet.{
  SchemaSet, new_schema, add_schema, find_schema, create_schema_entry, drop_schema_entry,
  after_create_database, create_schema, after_drop_database, drop_schema, lookup_schema,
}
use duckdb_paimon.Catalog.Schemas.{lookup_schema-create_schema, drop_schema-forgets}
use duckdb_paimon.Catalog.Options.{
  CatalogKeys, Environment, try_get, ci_equals, get_paimon_options, metastore_options,
  metastore_from, format_option, get_validated_format, validated_format, file_system, is_oss, is_s3,
  secret_options, file_system_options, s3_options, add_optional, snapshot_options, file_formats,
}
use duckdb_paimon.Catalog.Validation.{
  format_fits, metastore_complete, secret_fits, get_paimon_options_complete,
}
use duckdb_paimon.Tests.Sample.{varchar_type}
use duckdb_paimon.Tests.TableStore.{memory, memory-IsLocal, Tables}

abbrev one_table : CreateTableInfo
one_table = record {
  table = "t";
  column_names = "p" ∷ "v" ∷ [];
  column_types = varchar_type ∷ varchar_type ∷ [];
  on_conflict = OnConflict.error_on_conflict;
  constraints = [];
  partition_keys = [];
  options = [];
}

abbrev start : Tables
start = ("d" ∷ [], [])

abbrev after_request : Tables × TableSet
after_request = serve memory "d" (Request.create one_table) (start, no_tables)

lookup_entry-Answers_example :
    Answers memory "d" after_request.0 "t"
      (lookup_entry memory "d" after_request.0 after_request.1 CatalogType.table_entry "t").0
lookup_entry-Answers_example =
    lookup_entry-Answers memory "d" after_request "t" memory-IsLocal
      (Reachable.served (start, no_tables) (Request.create one_table) (Reachable.opened start))

abbrev entry : TableEntry
entry = record { name = "t"; columns = ("p", varchar_type) ∷ ("v", varchar_type) ∷ [] }

one_table_created : (create_table memory "d" start no_tables one_table).0 ≡ ok (some entry)
unfolding create_table send_create table_request primary_keys partition_columns table_options
    after_create refresh_entry build_entry build_from find_entry drop_entry read_entry entry_of
    columns_of zip_columns lookup assign emplace erase
one_table_created = refl

create_table-reads_example :
    (read_entry memory "d" (create_table memory "d" start no_tables one_table).1 "t"
      ≡ ok (some entry))
    × ((lookup_entry memory "d"
          (create_table memory "d" start no_tables one_table).1
          (create_table memory "d" start no_tables one_table).2
          CatalogType.table_entry
          "t").0
        ≡ ok (some entry))
create_table-reads_example =
    create_table-reads memory "d" start no_tables one_table (some entry) one_table_created

abbrev one_stored : Tables
one_stored = ("d" ∷ [], ("t", "p" ∷ []) ∷ [])

table_dropped :
    (drop_table memory "d" one_stored no_tables CatalogType.table_entry "t" false).0 ≡ ok tt
unfolding drop_table after_drop lookup erase
table_dropped = refl

drop_table-reads_example :
    (lookup_entry memory "d"
      (drop_table memory "d" one_stored no_tables CatalogType.table_entry "t" false).1
      (drop_table memory "d" one_stored no_tables CatalogType.table_entry "t" false).2
      CatalogType.table_entry
      "t").0
    ≡ read_entry memory "d"
        (drop_table memory "d" one_stored no_tables CatalogType.table_entry "t" false).1
        "t"
drop_table-reads_example =
    drop_table-reads memory "d" one_stored no_tables CatalogType.table_entry "t" false table_dropped

abbrev no_schemas : SchemaSet
no_schemas = record { inited = false; entries = [] }

schema_created :
    (create_schema memory start no_schemas "e" false).0 ≡ ok (some (new_schema memory "e"))
unfolding create_schema after_create_database create_schema_entry find_schema add_schema lookup
    emplace
schema_created = refl

lookup_schema-create_schema_example :
    (true ≡ true)
    × ((lookup_schema memory start (create_schema memory start no_schemas "e" false).2 "e" true).0
        ≡ ok (some (new_schema memory "e")))
lookup_schema-create_schema_example =
    lookup_schema-create_schema memory start start no_schemas "e" false true ("d" ∷ [])
      (some (new_schema memory "e")) schema_created refl

abbrev loaded : SchemaSet
loaded = record {
  inited = true;
  entries = ("d", record { name = "d"; tables = record { inited = true; entries = [] } }) ∷ [];
}

schema_dropped : (drop_schema memory start loaded "d" false true).0 ≡ ok tt
unfolding drop_schema after_drop_database
schema_dropped = refl

schema_created_again :
    (create_schema memory start (drop_schema memory start loaded "d" false true).2 "d" false).0
    ≡ ok (some (new_schema memory "d"))
unfolding drop_schema after_drop_database drop_schema_entry create_schema after_create_database
    create_schema_entry find_schema add_schema lookup emplace erase
schema_created_again = refl

drop_schema-forgets_example :
    ((lookup_schema memory start (drop_schema memory start loaded "d" false true).2 "d" true).0
      ≡ throw (catalog_exception "Schema not found"))
    × (some (new_schema memory "d") ≡ some (new_schema memory "d"))
drop_schema-forgets_example =
    drop_schema-forgets memory start start loaded "d" false true true false
      (some (new_schema memory "d")) refl schema_dropped schema_created_again

abbrev keys : CatalogKeys
keys = record {
  table = record {
    manifest_format = "manifest.format";
    file_format = "file.format";
    scan_snapshot_id = "scan.snapshot-id";
    scan_timestamp_millis = "scan.timestamp-millis";
  };
  metastore = "metastore";
  uri = "uri";
  token_provider = "token.provider";
  token = "token";
  file_system = "file-system";
  read_batch_size = "read.batch-size";
}

abbrev environment : Environment
environment = record {
  lower = λ s. if s == "ORC" then "orc" else s;
  trim = λ s. s;
  lookup_secret =
      λ path. some (record { provider = "credential_chain"; values = ("region", "r") ∷ [] });
  epoch_millis_text = λ text. ok text;
  standard_vector_size = "2048";
}

abbrev input : Map String
input = ("file_format", "ORC") ∷ ("snapshot_from_id", "7") ∷ []

abbrev output : Map String
output =
    ("file.format", "orc")
    ∷ ("file-system", "s3")
    ∷ ("s3.region", "r")
    ∷ ("read.batch-size", "2048")
    ∷ ("scan.snapshot-id", "7")
    ∷ []

options_given : get_paimon_options environment keys "s3://b/w" input ≡ ok output
unfolding get_paimon_options metastore_options metastore_from format_option get_validated_format
    validated_format try_get ci_equals file_system is_oss is_s3 secret_options file_system_options
    s3_options add_optional snapshot_options lookup assign emplace
options_given = refl

get_paimon_options_complete_example :
    (true ≡ true)
    × (format_fits environment keys (try_get environment keys input "file_format") file_formats
        ≡ true)
    × (metastore_complete environment keys input (try_get environment keys input "metastore")
        ≡ true)
    × (secret_fits environment keys "s3://b/w" (environment.lookup_secret "s3://b/w") ≡ true)
    × ((is_some (try_get environment keys input "snapshot_from_id")
          && is_some (try_get environment keys input "snapshot_from_timestamp"))
        ≡ false)
unfolding try_get ci_equals
get_paimon_options_complete_example =
    get_paimon_options_complete environment keys "s3://b/w" input output options_given
