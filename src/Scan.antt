-- ===== src/Scan.antt =====
-- src/include/paimon_scan.hpp: the bind data of `paimon_scan`, with the distributed part.
pub mod Runtime
pub mod Batches
pub mod ExactlyOnce
pub mod Bind
pub mod Binding
pub mod Statistics
use duckdb_paimon.Prelude.{ℕ, String, Bool, Option, List, Map}
use duckdb_paimon.Prelude.Int.{ℤ}
use duckdb_paimon.Sql.{LogicalType}
use duckdb_paimon.TablePath.{PaimonTablePath, Text}

pub data ScanPhase : Type 0 where
  coordinator distributed_coordinator worker_template worker_assigned : ScanPhase

pub record DistributedScanState (Split : Type 0) : Type 0 where
  pub phase : ScanPhase
  pub split_set_id : Text
  pub has_snapshot : Bool
  pub snapshot_id : ℤ
  pub schema_id : ℤ
  pub append_only : Bool
  pub return_types : List LogicalType
  pub return_names : List String
  pub portable_options : Map String
  pub assigned_splits : List Split

-- `arrow_names` and `arrow_types` are the names and types of the Arrow table schema.
pub record ScanBindData (Predicate Split : Type 0) : Type 0 where
  pub path : PaimonTablePath
  pub table_data_path : String
  pub paimon_options : Map String
  pub arrow_names : List String
  pub arrow_types : List LogicalType
  pub predicates : Option Predicate
  pub part_keys : List String
  pub part_filters : List (Map String)
  pub debug_expected_splits : Option ℕ
  pub table_schema_json : String
  pub distributed : DistributedScanState Split
