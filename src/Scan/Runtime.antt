-- ===== src/Scan/Runtime.antt =====
-- src/paimon_storage/paimon_scan.cpp: the state of a running scan. The threads share the planned splits
-- and an atomic index; each reads the batches of the split that it has claimed.
use duckdb_paimon.Prelude.{
  ℕ, zero, suc, Bool, true, false, not, String, Option, none, some, List, [], ◌∷◌, ◌++◌, get_elem?,
  length, leb, eqb, Map, emplace,
}
use duckdb_paimon.Sql.{
  Result, ok, throw, throw_if, io_exception, invalid_input, internal_exception, ◌>>=◌, ◌>>◌,
}
use duckdb_paimon.Paimon.{Outcome, value, status}
use duckdb_paimon.Scan.{ScanBindData, ScanPhase}

-- The part of `PaimonScanGlobalState` that the threads read.
pub record ScanGlobal (Predicate Split : Type 0) : Type 0 where
  pub splits : List Split
  pub path : String
  pub paimon_predicates : Option Predicate
  pub distributed_worker : Bool

-- paimon-cpp's reader of a split, as the answers of its `NextBatch` calls before the end.
abbrev pub Reader : Type 0 → Type 0
Reader Batch = List (Outcome Batch)

pub record ScanLocal (Batch : Type 0) : Type 0 where
  pub batch_reader : Reader Batch
  pub exhausted : Bool

-- The threads that run, the index that they share, and the batches that they have given to DuckDB, the
-- latest first.
pub record Running (Batch : Type 0) : Type 0 where
  pub split_index : ℕ
  pub threads : List (ScanLocal Batch)
  pub delivered : List Batch

pub data Event : Type 0 where
  -- `PaimonScanLocalState` is constructed on a new thread.
  started : Event
  -- A running thread goes once through the loop of `NextBatch`.
  looped : ℕ → Event

-- The columns that a local state reads, or an exception; `is_row_id` is DuckDB's test.
unfoldable pub read_column_ids : (ℕ → Bool) → ℕ → List ℕ → Result (List ℕ)
read_column_ids is_row_id column_count [] = ok []
read_column_ids is_row_id column_count (id ∷ ids) = do
  throw_if (is_row_id id) (invalid_input "Paimon tables do not support selecting rowid")
  throw_if (leb column_count id) (invalid_input "Invalid projected column id for paimon scan")
  later ← read_column_ids is_row_id column_count ids
  ok (id ∷ later)

-- The phases in which `PaimonScanInitGlobal` may run; true for a worker with its splits.
unfoldable pub runs_as_worker : ScanPhase → Result Bool
runs_as_worker ScanPhase.coordinator = ok false
runs_as_worker ScanPhase.distributed_coordinator =
    throw (invalid_input "A distributed Paimon coordinator scan cannot execute on a worker")
runs_as_worker ScanPhase.worker_template =
    throw (invalid_input "A distributed Paimon worker scan requires an explicit split assignment")
runs_as_worker ScanPhase.worker_assigned = ok true

-- `column_ids_mapping`: from the name of a projected column to its place in the projection.
unfoldable pub column_mapping : List String → ℕ → List ℕ → Map ℕ → Result (Map ℕ)
column_mapping names i [] mapping = ok mapping
column_mapping names i (id ∷ ids) mapping = elim (get_elem? names id) [
  | none ↦ throw (internal_exception "Attempted to access index within vector out of range")
  | some name ↦ column_mapping names (suc i) ids (emplace name i mapping)
]

-- `CreatePickedFieldFilter` is `pick`.
unfoldable pub picked_predicate :
    {Predicate : Type 0}
    → (Predicate → Map ℕ → Outcome (Option Predicate))
    → List String
    → List ℕ
    → Option Predicate
    → Result (Option Predicate)
picked_predicate pick names ids none = ok none
picked_predicate pick names ids (some p) = column_mapping names 0 ids [] >>= λ mapping.
    elim (pick p mapping) [ status e ↦ throw (io_exception e.text) | value picked ↦ ok picked ]

unfoldable pub check_expected : {Split : Type 0} → Option ℕ → List Split → Result (Unit {0})
check_expected none splits = ok tt
check_expected (some n) splits =
    throw_if (not (eqb (length splits) n))
      (invalid_input "Paimon scan planned an unexpected number of splits")

module _ {Predicate Split : Type 0} where
  unfoldable pub scan_splits :
      (ScanBindData Predicate Split → Result (List Split))
      → Bool
      → ScanBindData Predicate Split
      → Result (List Split)
  scan_splits create_splits true bind = ok bind.distributed.assigned_splits
  scan_splits create_splits false bind = create_splits bind

  -- `PaimonScanInitGlobal`; `create_splits` is `CreatePaimonScanSplits`.
  unfoldable pub init_global :
      (ScanBindData Predicate Split → Result (List Split))
      → (Predicate → Map ℕ → Outcome (Option Predicate))
      → ScanBindData Predicate Split
      → List ℕ
      → Result (ScanGlobal Predicate Split)
  init_global create_splits pick bind column_ids = do
    worker ← runs_as_worker bind.distributed.phase
    predicates ← picked_predicate pick bind.arrow_names column_ids bind.predicates
    splits ← scan_splits create_splits worker bind
    check_expected bind.debug_expected_splits splits
    ok (record {
      splits = splits;
      path = bind.table_data_path;
      paimon_predicates = predicates;
      distributed_worker = worker;
    })

-- What a thread holds of the reader that it asked for.
unfoldable pub open_reader : {Batch : Type 0} → Outcome (Reader Batch) → Result (ScanLocal Batch)
open_reader (status e) = throw (io_exception e.text)
open_reader (value reader) = ok (record { batch_reader = reader; exhausted = false })

module _ {Split Batch : Type 0} (create_reader : Split → Outcome (Reader Batch)) where
  -- `NextSplit` once the index has been fetched: the new local state.
  unfoldable pub claim : Option Split → Result (ScanLocal Batch)
  claim none = ok (record { batch_reader = []; exhausted = true })
  claim (some split) = open_reader (create_reader split)

  -- One round of the loop of `NextBatch`: the local state, the shared index, and the batch where one is
  -- returned. At the end of its reader the thread fetches the index and moves it on.
  unfoldable pub loop_with :
      List Split → ℕ → Bool → Reader Batch → Result (ScanLocal Batch × ℕ × List Batch)
  loop_with splits index true reader =
      ok (record { batch_reader = reader; exhausted = true }, index, [])
  loop_with splits index false (value batch ∷ rest) =
      ok (record { batch_reader = rest; exhausted = false }, index, batch ∷ [])
  loop_with splits index false (status e ∷ rest) = throw (io_exception e.text)
  loop_with splits index false [] = do
    next ← claim (get_elem? splits index)
    ok (next, suc index, [])

  -- The loop on the thread with this number; there may be none.
  unfoldable pub loop_thread :
      List Split → ℕ → ℕ → List (ScanLocal Batch) → Result (List (ScanLocal Batch) × ℕ × List Batch)
  loop_thread splits index i [] = ok ([], index, [])
  loop_thread splits index zero (l ∷ ls) = do
    done ← loop_with splits index l.exhausted l.batch_reader
    ok (done.0 ∷ ls, done.1, done.2)
  loop_thread splits index (suc i) (l ∷ ls) = do
    done ← loop_thread splits index i ls
    ok (l ∷ done.0, done.1, done.2)

  unfoldable pub happen : List Split → Running Batch → Event → Result (Running Batch)
  happen splits s started = do
    l ← claim (get_elem? splits s.split_index)
    ok (record s { split_index = suc s.split_index; threads = l ∷ s.threads })
  happen splits s (looped i) = do
    done ← loop_thread splits s.split_index i s.threads
    ok (record { split_index = done.1; threads = done.0; delivered = done.2 ++ s.delivered })

  -- Any interleaving of the threads, as the order in which their rounds take effect.
  unfoldable pub run : List Split → Running Batch → List Event → Result (Running Batch)
  run splits s [] = ok s
  run splits s (event ∷ events) = do next ← happen splits s event; run splits next events

  abbrev pub not_started : Running Batch
  not_started = record { split_index = 0; threads = []; delivered = [] }
