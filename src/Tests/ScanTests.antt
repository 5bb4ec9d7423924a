-- ===== src/Tests/ScanTests.antt =====
-- The theorems on the running scan at concrete inputs.
use duckdb_paimon.Prelude.{ℕ, ◌+◌, ◌≡◌, refl, true, List, [], ◌∷◌}
use duckdb_paimon.Sql.{ok}
use duckdb_paimon.Paimon.{Outcome, value}
use duckdb_paimon.Scan.Runtime.{
  Reader, ScanLocal, Running, Event, started, looped, open_reader, claim, loop_with, loop_thread,
  happen, run, not_started,
}
use duckdb_paimon.Prelude.{false, is_some, some, eqb, arith, if◌then◌else◌}
use duckdb_paimon.Scan.Batches.{after_round, next_batch, next_batch-returns}
use duckdb_paimon.Scan.ExactlyOnce.{weigh, weigh_splits, run-delivers}

-- A split n has the batches n and n + 1.
abbrev two_batches : ℕ → Outcome (Reader ℕ)
two_batches n = value (value n ∷ value (n + 1) ∷ [])

-- Two threads on two splits; the second is the first to read.
abbrev interleaving : List Event
interleaving =
    started
    ∷ started
    ∷ looped 0
    ∷ looped 1
    ∷ looped 0
    ∷ looped 0
    ∷ looped 1
    ∷ looped 1
    ∷ looped 0
    ∷ []

abbrev idle : ScanLocal ℕ
idle = record { batch_reader = []; exhausted = true }

abbrev finished : Running ℕ
finished = record {
  split_index = 4;
  threads = idle ∷ idle ∷ [];
  delivered = 11 ∷ 21 ∷ 10 ∷ 20 ∷ [];
}

interleaving_runs :
    run two_batches (10 ∷ 20 ∷ []) (not_started two_batches) interleaving ≡ ok finished
unfolding run happen claim open_reader loop_thread loop_with
interleaving_runs = refl

run-delivers_example :
    weigh two_batches (λ n. n) finished.delivered ≡ weigh_splits two_batches (λ n. n) (10 ∷ 20 ∷ [])
run-delivers_example =
    run-delivers two_batches (λ n. n) (10 ∷ 20 ∷ []) interleaving finished interleaving_runs refl
      refl

-- An empty split, then one with batches.
abbrev sometimes_empty : ℕ → Outcome (Reader ℕ)
sometimes_empty n = value (if eqb n 0 then [] else value n ∷ [])

abbrev idle_start : ScanLocal ℕ
idle_start = record { batch_reader = []; exhausted = false }

next_batch-returns_example : is_some (next_batch sometimes_empty 4 (0 ∷ 5 ∷ []) 0 idle_start) ≡ true
next_batch-returns_example =
    next_batch-returns sometimes_empty 4 (0 ∷ 5 ∷ []) 0 idle_start (omega arith) (omega arith)

-- What the call gives there.
first_batch_found :
    next_batch sometimes_empty 4 (0 ∷ 5 ∷ []) 0 idle_start
    ≡ some (ok (some 5, record { batch_reader = []; exhausted = false }, 2))
unfolding next_batch after_round loop_with claim open_reader
first_batch_found = refl
