-- ===== src/Snapshots.antt =====
-- src/paimon_storage/paimon_snapshots.cpp: `PaimonSnapshotsExecute`, which gives the rows of the bind data
-- in chunks. `size` is STANDARD_VECTOR_SIZE.
pub mod Bind
use duckdb_paimon.Prelude.{
  ℕ, zero, suc, ◌+◌, ◌≤◌, ◌<◌, ◌≡◌, refl, sym, ap, ◌∙◌, Option, none, some, List, [], ◌∷◌, ◌++◌,
  get_elem?, length, drop, arith,
}

module _ {Row : Type 0} where
  unfoldable pub next_row : Option Row → List Row × ℕ → ℕ → List Row × ℕ
  next_row none rest current = ([], current)
  next_row (some row) rest current = (row ∷ rest.0, rest.1)

  -- The loop of `PaimonSnapshotsExecute` for at most so many more rows: the chunk, and `current_row`.
  unfoldable pub execute : ℕ → List Row → ℕ → List Row × ℕ
  execute zero rows current = ([], current)
  execute (suc n) rows current =
      next_row (get_elem? rows current) (execute n rows (suc current)) current

  unfoldable pub read_on : List Row → Option (List Row) → Option (List Row)
  read_on [] later = some []
  read_on (row ∷ page) none = none
  read_on (row ∷ page) (some later) = some ((row ∷ page) ++ later)

  -- DuckDB calls the function until it gets an empty chunk; none where the fuel is too small.
  unfoldable pub read_all : ℕ → ℕ → List Row → ℕ → Option (List Row)
  read_all zero size rows current = none
  read_all (suc fuel) size rows current =
      let chunk = execute size rows current in read_on chunk.0 (read_all fuel size rows chunk.1)

  drop-none : (rows : List Row) (i : ℕ) → get_elem? rows i ≡ none → drop i rows ≡ []
  drop-none [] zero h = refl
  drop-none [] (suc i) h = refl
  drop-none (row ∷ rows) zero h = cc
  drop-none (row ∷ rows) (suc i) h = drop-none rows i h

  none-le : (rows : List Row) (i : ℕ) → get_elem? rows i ≡ none → length rows ≤ i
  none-le [] i h = omega arith
  none-le (row ∷ rows) zero h = cc
  none-le (row ∷ rows) (suc i) h = omega (arith, none-le rows i h)

  drop-some :
      (rows : List Row) (i : ℕ) (row : Row)
      → get_elem? rows i ≡ some row
      → (drop i rows ≡ row ∷ drop (suc i) rows) × (i < length rows)
  drop-some [] i row h = cc
  drop-some (x ∷ rows) zero row h = (cc, omega arith)
  drop-some (x ∷ rows) (suc i) row h =
      let (same, below) = drop-some rows i row h in (same, omega (arith, below))

  next_row-page :
      (rows : List Row) (i : ℕ) (o : Option Row) (rest : List Row × ℕ)
      → get_elem? rows i ≡ o
      → rest.0 ++ drop rest.1 rows ≡ drop (suc i) rows
      → suc i ≤ rest.1
      → ((next_row o rest i).0 ++ drop (next_row o rest i).1 rows ≡ drop i rows)
        × (i ≤ (next_row o rest i).1)
  unfolding next_row
  next_row-page rows i none rest h same later = (refl, omega arith)
  next_row-page rows i (some row) rest h same later =
      (ap (◌∷◌ row) same ∙ sym (drop-some rows i row h).0, omega (arith, later))

  -- A chunk is the next part of the rows.
  execute-page :
      (n : ℕ) (rows : List Row) (i : ℕ)
      → ((execute n rows i).0 ++ drop (execute n rows i).1 rows ≡ drop i rows)
        × (i ≤ (execute n rows i).1)
  unfolding execute
  execute-page zero rows i = (refl, omega arith)
  execute-page (suc n) rows i =
      let (same, later) = execute-page n rows (suc i) in
      next_row-page rows i (get_elem? rows i) (execute n rows (suc i)) refl same later

  read_on-rows :
      (rows : List Row) (i : ℕ) (o : Option Row) (rest : List Row × ℕ) (later : Option (List Row))
      → get_elem? rows i ≡ o
      → (next_row o rest i).0 ++ drop (next_row o rest i).1 rows ≡ drop i rows
      → (i < length rows → later ≡ some (drop (next_row o rest i).1 rows))
      → read_on (next_row o rest i).0 later ≡ some (drop i rows)
  unfolding next_row read_on
  read_on-rows rows i none rest later h same more = ap some (sym (drop-none rows i h))
  read_on-rows rows i (some row) rest later h same more =
      rw (more (drop-some rows i row h).1) (ap some same)

  next_row-lt :
      (rows : List Row) (i : ℕ) (o : Option Row) (rest : List Row × ℕ)
      → get_elem? rows i ≡ o
      → suc i ≤ rest.1
      → i < length rows
      → suc i ≤ (next_row o rest i).1
  unfolding next_row
  next_row-lt rows i none rest h later below = absurd (omega (arith, none-le rows i h))
  next_row-lt rows i (some row) rest h later below = later

  -- Called until a chunk is empty, with chunks of at least one row, the function gives the rows that are
  -- left, each once and in order; one call more than there are rows left is enough.
  pub read_all-rows :
      (fuel n : ℕ) (rows : List Row) (i : ℕ)
      → length rows < fuel + i
      → 0 < fuel
      → read_all fuel (suc n) rows i ≡ some (drop i rows)
  unfolding read_all execute
  read_all-rows zero n rows i enough positive = absurd (omega arith)
  read_all-rows (suc fuel) n rows i enough positive =
      let (same, later) = execute-page n rows (suc i) in
      let (page, on) =
        next_row-page rows i (get_elem? rows i) (execute n rows (suc i)) refl same later in
      read_on-rows rows i (get_elem? rows i) (execute n rows (suc i)) _ refl page (λ below.
        let moved =
          next_row-lt rows i (get_elem? rows i) (execute n rows (suc i)) refl later below in
        read_all-rows fuel n rows _ (omega (arith, moved)) (omega arith))
