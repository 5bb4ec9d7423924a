-- ===== src/Tests/SnapshotTests.antt =====
-- The theorem on the snapshot listing at a concrete input.
use duckdb_paimon.Prelude.{ℕ, ◌≡◌, refl, List, [], ◌∷◌, some, arith}
use duckdb_paimon.Snapshots.{execute, next_row, read_all, read_all-rows}

abbrev three_rows : List ℕ
three_rows = 4 ∷ 5 ∷ 6 ∷ []

first_chunk : execute 2 three_rows 0 ≡ (4 ∷ 5 ∷ [], 2)
unfolding execute next_row
first_chunk = refl

read_all-rows_example : read_all 4 2 three_rows 0 ≡ some three_rows
read_all-rows_example = read_all-rows 4 1 three_rows 0 (omega arith) (omega arith)
