-- ===== src/Lib.antt =====
-- The duckdb-paimon extension: DuckDB tables over Apache Paimon.
--
-- DuckDB attaches a Paimon warehouse as a catalog (schemas, tables), scans its tables through the
-- table function `paimon_scan` with filters pushed down to paimon-cpp, and can spread a scan over
-- workers. The parts, the files that model them, and the code:
--
--   TypeUtils       src/paimon_storage/paimon_type_utils.cpp: `ConvertFieldType` (convert_field_type) and
--                   `ConvertLiteral` (convert_literal), from DuckDB types and values to Paimon's.
--   Pushdown        src/paimon_storage/paimon_scan.cpp: the `TryConvert*` functions, from DuckDB
--                   expressions to Paimon predicates (try_convert_expression and the others, under the
--                   source's names). Pushdown/Semantics says what expressions and predicates mean.
--   Partition       the same file: `TryExtractPartitionFilter(s)` (try_extract, try_extract_filters),
--                   the cross-product of the partition filters (combine_filters), and
--                   `PaimonPushdownFilter` (pushdown_filter), which uses both.
--   Scan            src/include/paimon_scan.hpp: the bind data. Scan/Runtime: `PaimonScanInitGlobal`
--                   (init_global) and the threads' `NextSplit` (claim) and rounds of `NextBatch`
--                   (loop_with). Scan/Batches: the whole loop. Scan/ExactlyOnce is about these. Scan/Bind:
--                   `PaimonScanBind` (scan_bind), with Scan/Binding about it. Scan/Statistics:
--                   `PaimonGetPartitionStats` (get_partition_stats).
--   TableEntry      src/paimon_storage/paimon_table_entry.cpp: `GetScanFunction` (get_scan_function), with
--                   TableEntry/TimeTravel about it. TableEntry/WriteTarget: the identity and definition
--                   of a write target.
--   TablePath       src/paimon_functions.cpp: `PaimonTablePath::Parse` (parse).
--   DistributedScan src/paimon_storage/paimon_distributed_scan.cpp: SplitIds, Estimates, Envelope (the
--                   bytes of a split), Transport and RoundTrip (the bytes of the bind data), Planning, Numbering and
--                   Assignment (`PaimonPlanDistributedScanSplits`, `PaimonApplyDistributedScanSplits`).
--   Catalog         Backend: the calls of paimon-cpp's catalog. TableSet, SchemaSet:
--                   src/paimon_storage/paimon_table_set.cpp and paimon_schema_set.cpp. SchemaEntry:
--                   paimon_schema_entry.cpp. Options: `GetPaimonOptions` of paimon_catalog.cpp,
--                   Plans: its `Attach`, `PlanInsert` and `PlanCreateTableAs`, with ReadOnly about them.
--                   Coherence, Sessions, Freshness, Schemas and Validation are about these.
--   Insert          src/paimon_storage/paimon_insert.cpp: Sink (`GetGlobalSinkState`'s partition columns and
--                   `Sink`, with Grouping about it), Commit (`Combine`, `Finalize`, `GetDataInternal`).
--   DistributedInsert  src/paimon_storage/paimon_distributed_insert.cpp.
--                   Identities: the texts that name attempts, users and fragments. Transport: the bind data of
--                   a write and its bytes. CommitEnvelope: what a task publishes. Tasks, Worker, WorkerSink:
--                   the callbacks of a worker (initialize_global, initialize_local, worker_sink,
--                   worker_combine, worker_finalize, destroy). DecodeState, Decode: `DecodeCommitResults`.
--                   Target: `LoadTargetState`. Operator: the fields of `PhysicalPaimonInsert` in
--                   src/include/paimon_insert.hpp and the checks on them. Coordinator: the baseline and the
--                   aborts. Methods and Planning: the methods of the operator, under the source's names.
--                   Ownership, Publishing, LogicalTasks, Decoding, Consistency, Handover, Completeness,
--                   Selectable, Selection, Quiet, Baseline, Outcomes, Commitment, Sequences, Beginning and
--                   Closing are about these.
--   Snapshots       src/paimon_storage/paimon_snapshots.cpp: `PaimonSnapshotsExecute` (execute).
--                   Snapshots/Bind: `PaimonSnapshotsBind` (snapshots_bind) and `Deserialize` of its rows.
--   Sql, Paimon     what the extension uses of DuckDB and of paimon-cpp.
--   Wire            DuckDB's binary serializer: the fields that the bytes of a split, of a bind and of a
--                   commit fragment are written and read by, one by one.
--   Prelude         lists, maps, integers and tests that the modules share.
--   Tests           sample data, and each theorem applied to it.
--
-- How they interact: a scan is bound to a table path, which for an attached table its entry makes, the
-- filters of the query go through `pushdown_filter` into the bind data, and the plan that paimon-cpp
-- makes of them is a list of splits. On one node the threads of Scan/Runtime share these splits.
-- Spread over workers, the splits are packed by `plan_split` with the identity of the split set, the
-- bind data are sent by `serialize_bind`, and `apply_splits` gives a worker its part. An INSERT writes
-- its rows by partition and commits once. A distributed INSERT freezes its target in the bind data
-- (`initialize_distributed_write`); each worker task writes under it and publishes one envelope with
-- its commit messages; the coordinator decodes the envelopes of the selected tasks, checks that the
-- table is still the planned one, and commits once.
--
-- State is passed explicitly, in DistributedInsert by the monad of Actions, whose exceptions keep the
-- state: an operation of the catalog gives its result with the store and the cache that it leaves,
-- also where it throws. Exceptions are the `throw` of `Result` in Sql. The interleavings of a scan's
-- threads are lists of events, each a round of one thread's loop; the atomic index is moved by one
-- such round. The methods of a coordinator are events in any order, with changes of the store from
-- elsewhere between them (Sequences); calls of a commit and of an abort are recorded in the state.
-- Integers of the source are the numbers of Prelude/Int; where a width matters it is written out: the
-- index limit of the estimates, and the 64 bits that the products of a timestamp are cut to (wrap_int64;
-- C++ leaves the overflow undefined). Fuel: the decimal digits of n are written with fuel n + 1, since
-- each digit divides n by ten; the loop of `NextBatch` runs on fuel above the number of splits left,
-- which `next_batch-returns` shows to be enough, and the calls of the snapshot listing on fuel above
-- the number of rows (`read_all-rows`).
--
-- Parameters, as the code is not here: paimon-cpp (predicate builder, catalog, split serialization,
-- split planning, readers) and DuckDB (its value conversions, the binary serializer, text functions,
-- secrets). What the theorems need of them is stated by records: IsStandard, IsFaithful, IsReversible,
-- IsLocal, IsLossless, Carries, ComparesTypes, CodecsAgree, CountsRows. The serializer is asked to read
-- back each number, truth value and text, and of strings, types, names and options those that are sent;
-- which fields are written, under which numbers and in which order, is modelled. Text that is taken
-- apart is a list of character codes (Text), other text is String. A map is an association list, and
-- the key of a case-insensitive map is in lower case.
--
-- Not modelled: the registration of functions, settings and worker callbacks with DuckDB, locks (each
-- operation that holds one is one step; a method of the coordinator is one step), the memory that
-- Arrow arrays own, the conversion of rows to Arrow, when a destructor runs (`destroy` is what it
-- does), messages' formatting, and the catalog operations that only throw. The checks of an Arrow
-- batch and the transaction manager are not modelled.
pub mod Prelude
pub mod Sql
pub mod TypeUtils
pub mod Paimon
pub mod Pushdown
pub mod TablePath
pub mod Scan
pub mod Partition
pub mod Tests
pub mod Wire
pub mod DistributedScan
pub mod Catalog
pub mod Insert
pub mod Snapshots
pub mod DistributedInsert
pub mod TableEntry
