-- ===== src/Tests/TableEntryTests.antt =====
-- An attached table, its scan at a version, and the count of its rows.
use duckdb_paimon.Prelude.{
  ℕ, ◌≡◌, refl, sym, ◌∙◌, String, true, false, Option, none, some, List, [], ◌∷◌, Map, lookup,
  assign, emplace,
}
use duckdb_paimon.Prelude.Int.{pos}
use duckdb_paimon.Sql.{Result, ok}
use duckdb_paimon.Paimon.{Outcome, value}
use duckdb_paimon.TablePath.{parse}
use duckdb_paimon.Catalog.Options.{
  get_paimon_options, metastore_options, metastore_from, try_get, ci_equals, format_option,
  secret_options, file_system, is_oss, is_s3, snapshot_options,
}
use duckdb_paimon.DistributedScan.Transport.{initialize_distributed}
use duckdb_paimon.Scan.{ScanBindData}
use duckdb_paimon.Scan.Bind.{
  ScanCatalog, ScanPlatform, bind_data_of, bind_schema, expected_splits, non_negative,
  create_paimon_catalog, scan_bind,
}
use duckdb_paimon.Scan.Runtime.{
  Reader, Running, init_global, runs_as_worker, picked_predicate, scan_splits, check_expected,
  open_reader, claim, loop_with, loop_thread, happen, run, not_started, ScanGlobal, started, looped,
  Event,
}
use duckdb_paimon.Scan.ExactlyOnce.{weigh, weigh_splits}
use duckdb_paimon.Scan.Statistics.{
  CountApi, CountsRows, counted, count_of, unfiltered_count, get_partition_stats,
  get_partition_stats-delivered,
}
use duckdb_paimon.TableEntry.{
  AtClause, AtPlatform, assign_parameter, assign_parameters, set_cast, at_parameter, at_parameters,
  get_scan_function,
}
use duckdb_paimon.TableEntry.TimeTravel.{TravelsTo, get_scan_function-TravelsTo}
use duckdb_paimon.Tests.WriteSample.{environment, keys}
use duckdb_paimon.Tests.SampleWire.{int_type}

abbrev pub stored : ScanCatalog
stored = record {
  table_location = λ db t. value "/w/db.db/t";
  load_table_schema = λ db t. value (
      some (record {
        data_part = some (record { id = pos 2; partition_keys = "a" ∷ []; primary_keys = [] });
        json = value "{}";
        arrow_schema = value (some (ok ("a" ∷ [], int_type ∷ [])));
      }));
}

abbrev pub scan_platform : ScanPlatform
scan_platform = record {
  db_suffix = b'.' ∷ b'd' ∷ b'b' ∷ [];
  string_of = λ text. "text";
  read_int64 = λ text. ok (pos 1);
  create = λ path options. value stored;
}

abbrev at : AtPlatform
at = record {
  upper = λ s. s;
  cast_bigint = λ s. ok s;
  cast_timestamp = λ s. ok s;
  has_scan_function = true;
}

abbrev clause : AtClause
clause = record { unit = "VERSION"; value = "7" }

-- The options of the ATTACH name another version, which the clause replaces.
abbrev attach_options : Map String
attach_options = ("snapshot_from_id", "3") ∷ ("debug_expected_splits", "1") ∷ []

abbrev versioned : ScanBindData ℕ ℕ
versioned =
    bind_data_of
      (record { warehouse = b'/' ∷ b'w' ∷ []; dbname = b'd' ∷ []; tablename = b't' ∷ [] })
      "/w/db.db/t"
      (("file-system", "local") ∷ ("read.batch-size", "2048") ∷ ("scan.snapshot-id", "7") ∷ [])
      (some 1) (some (record { id = pos 2; partition_keys = "a" ∷ []; primary_keys = [] })) "{}"
      ("a" ∷ [], int_type ∷ [])

abbrev bound : ScanBindData ℕ ℕ
bound = record versioned { distributed = record versioned.distributed { split_set_id = b'u' ∷ [] } }

scan_bound :
    get_scan_function environment keys.catalog at scan_platform
      (b'u' ∷ [])
      (b'/' ∷ b'w' ∷ [])
      (b'd' ∷ [])
      (b't' ∷ [])
      attach_options
      (some clause)
    ≡ ok bound
unfolding get_scan_function assign_parameter assign_parameters set_cast at_parameter at_parameters
    parse bind_data_of bind_schema expected_splits non_negative create_paimon_catalog scan_bind
    initialize_distributed get_paimon_options metastore_options metastore_from try_get ci_equals
    format_option secret_options file_system is_oss is_s3 snapshot_options lookup assign emplace
scan_bound = refl

get_scan_function-TravelsTo_example :
    (bound.path
      ≡ record { warehouse = b'/' ∷ b'w' ∷ []; dbname = b'd' ∷ []; tablename = b't' ∷ [] })
    × TravelsTo environment keys.catalog at clause bound.paimon_options
get_scan_function-TravelsTo_example =
    get_scan_function-TravelsTo environment keys.catalog at scan_platform (b'u' ∷ [])
      (b'/' ∷ b'w' ∷ []) (b'd' ∷ []) (b't' ∷ []) attach_options clause bound scan_bound

-- The split n has a batch of n rows and one of two.
abbrev splits_of : ScanBindData ℕ ℕ → Result (List ℕ)
splits_of b = ok (4 ∷ [])

abbrev reader_of : ℕ → Outcome (Reader ℕ)
reader_of n = value (value n ∷ value 2 ∷ [])

abbrev rows : ℕ → ℕ
rows n = n

abbrev count_api : CountApi ℕ ℕ
count_api = record {
  Context = Unit {0};
  TableRead = Unit {0};
  CountReader = ℕ;
  finish = λ b. value tt;
  create = λ c. value tt;
  create_count_reader = λ t splits. value (weigh_splits reader_of rows splits);
  count_rows = λ n. value (pos n);
}

count_api-CountsRows : CountsRows count_api splits_of reader_of rows
count_api-CountsRows = record {
  counts = λ t splits reader n made counted.
      let same_reader : weigh_splits reader_of rows splits ≡ reader = cc in
      let same_count : reader ≡ n = cc in sym same_count ∙ sym same_reader;
}

abbrev no_pick : ℕ → Map ℕ → Outcome (Option ℕ)
no_pick p mapping = value none

abbrev global : ScanGlobal ℕ ℕ
global = record {
  splits = 4 ∷ [];
  path = "/w/db.db/t";
  paimon_predicates = none;
  distributed_worker = false;
}

abbrev rounds : List Event
rounds = started ∷ looped 0 ∷ looped 0 ∷ looped 0 ∷ []

abbrev all_read : Running ℕ
all_read = record {
  split_index = 2;
  threads = record { batch_reader = []; exhausted = true } ∷ [];
  delivered = 2 ∷ 4 ∷ [];
}

stats_given : get_partition_stats count_api splits_of bound ≡ some 6
unfolding get_partition_stats unfiltered_count counted count_of bind_data_of
stats_given = refl

scan_initialized : init_global splits_of no_pick bound (0 ∷ []) ≡ ok global
unfolding init_global runs_as_worker picked_predicate scan_splits check_expected bind_data_of
scan_initialized = refl

rows_read : run reader_of (4 ∷ []) (not_started reader_of) rounds ≡ ok all_read
unfolding run happen claim open_reader loop_thread loop_with
rows_read = refl

get_partition_stats-delivered_example :
    (bound.predicates ≡ none)
    × (bound.part_filters ≡ [])
    × (6 ≡ weigh reader_of rows all_read.delivered)
get_partition_stats-delivered_example =
    get_partition_stats-delivered count_api splits_of reader_of rows bound 6 no_pick (0 ∷ []) global
      rounds all_read count_api-CountsRows stats_given scan_initialized rows_read refl refl
