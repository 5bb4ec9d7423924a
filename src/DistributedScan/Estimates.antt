-- ===== src/DistributedScan/Estimates.antt =====
-- `TryAddEstimate` and `GetSplitEstimates`.
use duckdb_paimon.Prelude.{
  ℕ, ◌+◌, ◌-◌, ◌^◌, ◌<◌, ◌≡◌, refl, Bool, true, false, not, ◌&&◌, ◌||◌, Option, none, some, List,
  [], ◌∷◌, arith, leb, if◌then◌else◌,
}
use duckdb_paimon.Prelude.Int.{ℤ, pos, negsuc}

-- `NumericLimits<idx_t>::Maximum()`, which is also `optional_idx`'s invalid index.
abbrev pub index_maximum : ℕ
index_maximum = 2 ^ 64 - 1

-- The new total, or none where the value is negative or the sum would reach the maximum.
unfoldable pub try_add_estimate : ℤ → ℕ → Option ℕ
try_add_estimate (negsuc n) total = none
try_add_estimate (pos n) total =
    if leb index_maximum n || leb (index_maximum - n) total then none else some (total + n)

-- What paimon-cpp tells of a data file.
pub record FileMeta : Type 0 where
  pub file_size : ℤ
  pub row_count : ℤ

-- `dynamic_pointer_cast` of a split to its two kinds; an indexed split may hold no data split.
pub data SplitKind : Type 0 where
  data_split : List FileMeta → SplitKind
  indexed_split : Option (List FileMeta) → SplitKind
  other_split : SplitKind

pub record Estimates : Type 0 where
  pub has_cardinality : Bool
  pub cardinality : ℕ
  pub has_bytes : Bool
  pub bytes : ℕ

-- A running total and whether it is still valid; an invalid one is left as it was.
unfoldable pub add_valid : ℤ → Bool × ℕ → Bool × ℕ
add_valid value (false, total) = (false, total)
add_valid value (true, total) = elim (try_add_estimate value total) [
  | none ↦ (false, total)
  | some sum ↦ (true, sum)
]

-- The loop over the files: bytes and rows.
unfoldable pub add_files : List FileMeta → Bool × ℕ → Bool × ℕ → (Bool × ℕ) × (Bool × ℕ)
add_files [] bytes rows = (bytes, rows)
add_files (file ∷ files) bytes rows =
    add_files files (add_valid file.file_size bytes) (add_valid file.row_count rows)

unfoldable pub files_estimates : Bool → Bool → List FileMeta → Estimates
files_estimates indexed append_only files =
    let (bytes, rows) = add_files files (true, 0) (append_only, 0) in
    record {
      has_cardinality = rows.0 && not indexed;
      cardinality = rows.1;
      has_bytes = bytes.0;
      bytes = bytes.1;
    }

abbrev pub no_estimates : Estimates
no_estimates = record { has_cardinality = false; cardinality = 0; has_bytes = false; bytes = 0 }

unfoldable pub split_estimates : SplitKind → Bool → Estimates
unfolding files_estimates
split_estimates (data_split files) append_only = files_estimates false append_only files
split_estimates (indexed_split none) append_only = no_estimates
split_estimates (indexed_split (some files)) append_only = files_estimates true append_only files
split_estimates other_split append_only = no_estimates

-- A sum that is accepted is exact and below the maximum, so no total wraps around.
pub try_add_estimate_lem :
    (value : ℤ) (total sum : ℕ)
    → try_add_estimate value total ≡ some sum
    → (sum < index_maximum) × ((n : ℕ) × (value ≡ pos n) × (sum ≡ total + n))
unfolding try_add_estimate
try_add_estimate_lem (negsuc n) total sum h = cc
try_add_estimate_lem (pos n) total sum h = (ground arith, (n, refl, ground arith))

add_valid-lt :
    (value : ℤ) (t : Bool × ℕ) → t.1 < index_maximum → (add_valid value t).1 < index_maximum
unfolding add_valid
add_valid-lt value (false, total) h = h
add_valid-lt value (true, total) h = go (try_add_estimate value total) refl
  where
    go :
        (o : Option ℕ)
        → try_add_estimate value total ≡ o
        → (add_valid value (true, total)).1 < index_maximum
    go none e = rw (e, add_valid) h
    go (some sum) e = rw (e, add_valid) (try_add_estimate_lem value total sum e).0

add_files-lt :
    (files : List FileMeta) (bytes rows : Bool × ℕ)
    → bytes.1 < index_maximum
    → rows.1 < index_maximum
    → ((add_files files bytes rows).0.1 < index_maximum)
      × ((add_files files bytes rows).1.1 < index_maximum)
unfolding add_files
add_files-lt [] bytes rows h k = (h, k)
add_files-lt (file ∷ files) bytes rows h k =
    add_files-lt files (add_valid file.file_size bytes) (add_valid file.row_count rows)
      (add_valid-lt file.file_size bytes h) (add_valid-lt file.row_count rows k)

-- Whatever sizes the files report, the estimates stay below the maximum, and so are valid optional
-- indexes.
pub split_estimates-lt :
    (kind : SplitKind) (append_only : Bool)
    → ((split_estimates kind append_only).cardinality < index_maximum)
      × ((split_estimates kind append_only).bytes < index_maximum)
unfolding split_estimates
split_estimates-lt (data_split files) append_only =
    let h = add_files-lt files (true, 0) (append_only, 0) (omega arith) (omega arith) in (h.1, h.0)
split_estimates-lt (indexed_split none) append_only = (omega arith, omega arith)
split_estimates-lt (indexed_split (some files)) append_only =
    let h = add_files-lt files (true, 0) (append_only, 0) (omega arith) (omega arith) in (h.1, h.0)
split_estimates-lt other_split append_only = (omega arith, omega arith)
