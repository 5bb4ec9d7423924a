-- ===== src/Scan/Statistics.antt =====
-- src/paimon_storage/paimon_scan.cpp: `PaimonGetPartitionStats`, by which DuckDB answers a COUNT(*) without a
-- scan.
use duckdb_paimon.Prelude.{
  ℕ, ◌≡◌, refl, sym, ap, ◌∙◌, Bool, true, false, Option, none, some, List, [], ◌∷◌, Map, arith,
  is_empty, String,
}
use mathlib.Core.Path.{subst}
use duckdb_paimon.Prelude.Int.{ℤ, pos, negsuc}
use duckdb_paimon.Sql.{Result, ok, throw, >>=-eq-ok}
use duckdb_paimon.Paimon.{Outcome, value, status}
use duckdb_paimon.Scan.{ScanBindData, ScanPhase}
use duckdb_paimon.Scan.Runtime.{
  ScanGlobal, Reader, Running, Event, init_global, runs_as_worker, scan_splits, check_expected,
  picked_predicate, run, not_started,
}
use duckdb_paimon.Scan.ExactlyOnce.{weigh, weigh_splits, all_exhausted, run-delivers}

-- paimon-cpp: a read context of a bind, the table read of it, its count reader of splits, and its count.
pub record CountApi (Predicate Split : Type 0) : Type 1 where
  pub Context : Type 0
  pub TableRead : Type 0
  pub CountReader : Type 0
  pub finish : ScanBindData Predicate Split → Outcome Context
  pub create : Context → Outcome TableRead
  pub create_count_reader : TableRead → List Split → Outcome CountReader
  pub count_rows : CountReader → Outcome ℤ

abbrev answer : {A : Type 0} → Outcome A → Option A
answer (value a) = some a
answer (status e) = none

-- A chain of answers that gives none at the first one missing.
abbrev chained : {A B : Type 0} → Option A → (A → Option B) → Option B
chained none f = none
chained (some a) f = f a

abbrev planned : {A : Type 0} → Result A → Option A
planned (ok a) = some a
planned (throw e) = none

abbrev is_coordinator : ScanPhase → Bool
is_coordinator ScanPhase.coordinator = true
is_coordinator _ = false

unfoldable pub count_of : ℤ → Option ℕ
count_of (pos n) = some n
count_of (negsuc n) = none

module _ {Predicate Split : Type 0} (api : CountApi Predicate Split)
    (create_splits : ScanBindData Predicate Split → Result (List Split)) where
  unfoldable pub counted : ScanBindData Predicate Split → Option ℕ
  counted bind = chained (planned (create_splits bind)) (λ splits.
      chained (answer (api.finish bind)) (λ context.
        chained (answer (api.create context)) (λ table_read.
          chained (answer (api.create_count_reader table_read splits))
            (λ reader. chained (answer (api.count_rows reader)) count_of))))

  -- Of a scan that is filtered there is no count.
  unfoldable pub unfiltered_count :
      Option Predicate → List (Map String) → ScanBindData Predicate Split → Option ℕ
  unfiltered_count none [] bind = counted bind
  unfiltered_count _ _ bind = none

  -- `PaimonGetPartitionStats`: the exact count, or no statistics.
  unfoldable pub get_partition_stats : ScanBindData Predicate Split → Option ℕ
  get_partition_stats bind = elim (is_coordinator bind.distributed.phase) [
    | true ↦ unfiltered_count bind.predicates bind.part_filters bind
    | false ↦ none
  ]

module _ {Predicate Split Batch : Type 0} (api : CountApi Predicate Split)
    (create_splits : ScanBindData Predicate Split → Result (List Split))
    (create_reader : Split → Outcome (Reader Batch)) (rows : Batch → ℕ) where
  -- What is relied on: a count is of the rows that the readers of the splits give.
  pub record CountsRows : Type 0 where
    pub counts :
        (t : api.TableRead) (splits : List Split) (reader : api.CountReader) (n : ℕ)
        → api.create_count_reader t splits ≡ value reader
        → api.count_rows reader ≡ value (pos n)
        → n ≡ weigh_splits create_reader rows splits

  chained-eq-some :
      {A B : Type 0} (a : Option A) (f : A → Option B) (x : B)
      → chained a f ≡ some x
      → (y : A) × (a ≡ some y) × (f y ≡ some x)
  chained-eq-some none f x h = cc
  chained-eq-some (some y) f x h = (y, refl, h)

  planned-eq-some : {A : Type 0} (r : Result A) (a : A) → planned r ≡ some a → r ≡ ok a
  planned-eq-some (ok b) a h = cc
  planned-eq-some (throw e) a h = cc

  answer-eq-some : {A : Type 0} (o : Outcome A) (a : A) → answer o ≡ some a → o ≡ value a
  answer-eq-some (value b) a h = cc
  answer-eq-some (status e) a h = cc

  count_of-eq-some : (z : ℤ) (n : ℕ) → count_of z ≡ some n → z ≡ pos n
  unfolding count_of
  count_of-eq-some (pos m) n h = cc
  count_of-eq-some (negsuc m) n h = cc

  counted-planned :
      (bind : ScanBindData Predicate Split) (n : ℕ)
      → CountsRows
      → counted api create_splits bind ≡ some n
      → (splits : List Split) × (create_splits bind ≡ ok splits)
        × (n ≡ weigh_splits create_reader rows splits)
  unfolding counted
  counted-planned bind n relied h =
      let (splits, e1, h1) = chained-eq-some (planned (create_splits bind)) _ n h in
      let (context, e2, h2) = chained-eq-some (answer (api.finish bind)) _ n h1 in
      let (t, e3, h3) = chained-eq-some (answer (api.create context)) _ n h2 in
      let (reader, e4, h4) = chained-eq-some (answer (api.create_count_reader t splits)) _ n h3 in
      let (z, e5, h5) = chained-eq-some (answer (api.count_rows reader)) _ n h4 in
      (
        splits,
        planned-eq-some (create_splits bind) splits e1,
        relied.counts t splits reader n
            (answer-eq-some (api.create_count_reader t splits) reader e4)
            (answer-eq-some (api.count_rows reader) z e5 ∙ ap value (count_of-eq-some z n h5)),
      )

  unfiltered_count-eq-some :
      (p : Option Predicate) (filters : List (Map String)) (bind : ScanBindData Predicate Split)
      (n : ℕ)
      → unfiltered_count api create_splits p filters bind ≡ some n
      → (p ≡ none) × (filters ≡ []) × (counted api create_splits bind ≡ some n)
  unfolding unfiltered_count
  unfiltered_count-eq-some none [] bind n h = (refl, refl, h)
  unfiltered_count-eq-some none (f ∷ filters) bind n h = cc
  unfiltered_count-eq-some (some p) filters bind n h = cc

  coordinator_phase :
      (phase : ScanPhase) → is_coordinator phase ≡ true → runs_as_worker phase ≡ ok false
  unfolding runs_as_worker
  coordinator_phase ScanPhase.coordinator h = refl
  coordinator_phase ScanPhase.distributed_coordinator h = cc
  coordinator_phase ScanPhase.worker_template h = cc
  coordinator_phase ScanPhase.worker_assigned h = cc

  -- The splits of a scan that runs are those that were planned for it.
  init_global-splits :
      (pick : Predicate → Map ℕ → Outcome (Option Predicate)) (bind : ScanBindData Predicate Split)
      (ids : List ℕ) (g : ScanGlobal Predicate Split)
      → runs_as_worker bind.distributed.phase ≡ ok false
      → init_global create_splits pick bind ids ≡ ok g
      → create_splits bind ≡ ok g.splits
  unfolding init_global scan_splits
  init_global-splits pick bind ids g phase h =
      let (worker, e1, h1) = >>=-eq-ok (runs_as_worker bind.distributed.phase) _ h in
      let (predicates, e2, h2) =
        >>=-eq-ok (picked_predicate pick bind.arrow_names ids bind.predicates) _ h1 in
      let (splits, e3, h3) = >>=-eq-ok (scan_splits create_splits worker bind) _ h2 in
      let (u, e4, h4) = >>=-eq-ok (check_expected bind.debug_expected_splits splits) _ h3 in
      let not_worker : worker ≡ false = cc in
      let same : splits ≡ g.splits = cc in
      subst (λ x. scan_splits create_splits x bind ≡ ok g.splits) not_worker (e3 ∙ ap ok same)

  get_partition_stats-eq-some :
      (bind : ScanBindData Predicate Split) (n : ℕ)
      → get_partition_stats api create_splits bind ≡ some n
      → (is_coordinator bind.distributed.phase ≡ true)
        × (unfiltered_count api create_splits bind.predicates bind.part_filters bind ≡ some n)
  unfolding get_partition_stats
  get_partition_stats-eq-some bind n h = ground arith

  -- A count comes for a scan without filters only, and is right: where a count reader counts the rows that
  -- the readers of its splits give, it is the number of rows that the scan of the same bind delivers,
  -- however its threads interleave, once all of them are exhausted without an exception.
  pub get_partition_stats-delivered :
      (bind : ScanBindData Predicate Split) (n : ℕ)
      (pick : Predicate → Map ℕ → Outcome (Option Predicate)) (ids : List ℕ)
      (g : ScanGlobal Predicate Split) (events : List Event) (last : Running Batch)
      → CountsRows
      → get_partition_stats api create_splits bind ≡ some n
      → init_global create_splits pick bind ids ≡ ok g
      → run create_reader g.splits (not_started create_reader) events ≡ ok last
      → is_empty last.threads ≡ false
      → all_exhausted last.threads ≡ true
      → (bind.predicates ≡ none)
        × (bind.part_filters ≡ [])
        × (n ≡ weigh create_reader rows last.delivered)
  get_partition_stats-delivered bind n pick ids g events last relied h global ran some_thread
        finished =
      let (phase, h1) = get_partition_stats-eq-some bind n h in
      let (no_predicate, no_filter, h2) =
        unfiltered_count-eq-some bind.predicates bind.part_filters bind n h1 in
      let (splits, made, count) = counted-planned bind n relied h2 in
      let own =
        init_global-splits pick bind ids g (coordinator_phase bind.distributed.phase phase)
          global in
      let same : splits ≡ g.splits = cc in
      (
        no_predicate,
        no_filter,
        count
            ∙ ap (weigh_splits create_reader rows) same
            ∙ sym (run-delivers create_reader rows g.splits events last ran some_thread finished),
      )
