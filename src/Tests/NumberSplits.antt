-- ===== src/Tests/NumberSplits.antt =====
-- A paimon-cpp of splits that are numbers.
use duckdb_paimon.Prelude.{ℕ, ◌+◌, ◌≡◌, sym, ap, [], ◌∷◌, some, none, is_empty}
use duckdb_paimon.Prelude.Int.{pos}
use duckdb_paimon.Paimon.{value}
use duckdb_paimon.DistributedScan.Estimates.{SplitKind}
use duckdb_paimon.DistributedScan.Planning.{SplitApi}
use duckdb_paimon.DistributedScan.Assignment.{IsReversible}

-- A split is a number; it holds one file of that many rows.
abbrev pub numbers : SplitApi ℕ
numbers = record {
  kind = λ n. SplitKind.data_split (record { file_size = pos (n + n); row_count = pos n } ∷ []);
  serialize = λ n. value (n ∷ []);
  deserialize = elim [ [] ↦ value none | n ∷ rest ↦ value (some n) ];
}

pub numbers-IsReversible : IsReversible numbers
numbers-IsReversible = record {
  deserialize-serialize = λ s p h. let e : s ∷ [] ≡ p = cc in ap numbers.deserialize (sym e);
  serialize-ne = λ s p h. let e : s ∷ [] ≡ p = cc in ap is_empty (sym e);
}
