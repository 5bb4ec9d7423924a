-- ===== src/Insert/Grouping.antt =====
-- Every row of a chunk is written once, with the partition of its own values.
use duckdb_paimon.Prelude.{
  ℕ, ◌+◌, ◌≡◌, refl, sym, ap, ap₂, ◌∙◌, true, String, eq_iff, List, [], ◌∷◌, ◌++◌, is_empty, arith,
  Map, Bool-cases, inl, inr, Option, none, some, assign, get_elem?,
}
use duckdb_paimon.Sql.{ok, ◌>>=◌, >>=-eq-ok}
use duckdb_paimon.Insert.Sink.{
  Row, Partitioning, Groups, same_key, key_before, add_row, key_value, row_key, keyed_rows,
  group_rows, partition_of, group_batches, sink_batches,
}

same_key→eq : (xs ys : List String) → same_key xs ys ≡ true → xs ≡ ys
unfolding same_key
same_key→eq [] [] h = refl
same_key→eq [] (y ∷ ys) h = cc
same_key→eq (x ∷ xs) [] h = cc
same_key→eq (x ∷ xs) (y ∷ ys) h =
    ap₂ ◌∷◌ (ground (arith, eq_iff x y)) (same_key→eq xs ys (ground arith))

module _ (weight : Map String → Row → ℕ) (names : List String) where
  abbrev pub weigh_rows : Map String → List Row → ℕ
  weigh_rows partition [] = 0
  weigh_rows partition (row ∷ rows) = weight partition row + weigh_rows partition rows

  abbrev pub weigh_batches : List (Map String × List Row) → ℕ
  weigh_batches [] = 0
  weigh_batches ((partition, rows) ∷ batches) = weigh_rows partition rows + weigh_batches batches

  -- The rows, each with the partition of its own key.
  abbrev weigh_keyed : List (List String × Row) → ℕ
  weigh_keyed [] = 0
  weigh_keyed ((key, row) ∷ keyed) = weight (partition_of names key []) row + weigh_keyed keyed

  weigh_rows-append :
      (partition : Map String) (xs : List Row) (row : Row)
      → weigh_rows partition (xs ++ row ∷ []) ≡ weigh_rows partition xs + weight partition row
  weigh_rows-append partition [] row = omega arith
  weigh_rows-append partition (x ∷ xs) row = omega (arith, weigh_rows-append partition xs row)

  add_row-weight :
      (key : List String) (row : Row) (groups : Groups)
      → weigh_batches (group_batches names (add_row key row groups))
        ≡ weight (partition_of names key []) row + weigh_batches (group_batches names groups)
  unfolding add_row group_batches
  add_row-weight key row [] = omega arith
  add_row-weight key row ((k, rows) ∷ groups) = elim (Bool-cases (same_key k key)) [
    | inl same ↦
        rw (same, same_key→eq k key same)
          (omega (arith, weigh_rows-append (partition_of names key []) rows row))
    | inr other ↦ elim (Bool-cases (key_before key k)) [
      | inl before ↦ rw (other, before) (omega arith)
      | inr after ↦ rw (other, after) (omega (arith, add_row-weight key row groups))
    ]
  ]

  group_rows-weight :
      (keyed : List (List String × Row)) (groups : Groups)
      → weigh_batches (group_batches names (group_rows keyed groups))
        ≡ weigh_keyed keyed + weigh_batches (group_batches names groups)
  unfolding group_rows
  group_rows-weight [] groups = omega arith
  group_rows-weight ((key, row) ∷ keyed) groups =
      omega (arith, group_rows-weight keyed (add_row key row groups), add_row-weight key row groups)

-- A row's own partition, from its cells: each partition column's name with the cell at that column's
-- index, where a null stands as the default partition name.
abbrev cell_text : String → Option (Option String) → String
cell_text null_name none = ""
cell_text null_name (some none) = null_name
cell_text null_name (some (some text)) = text

abbrev pub own_partition : String → List String → List ℕ → Row → Map String → Map String
own_partition null_name (name ∷ names) (i ∷ idxs) row partition =
    own_partition null_name names idxs row
      (assign name (cell_text null_name (get_elem? row i)) partition)
own_partition null_name _ _ row partition = partition

module _ (weight : Map String → Row → ℕ) (g : Partitioning) where
  -- The rows of a chunk, each with its own partition.
  abbrev pub weigh_chunk : List Row → ℕ
  weigh_chunk [] = 0
  weigh_chunk (row ∷ rows) =
      weight (own_partition g.null_part_name g.part_key_names g.part_col_idxs row []) row
      + weigh_chunk rows

cell-value :
    (null_name : String) (cell : Option (Option String)) (text : String)
    → key_value null_name cell ≡ ok text
    → text ≡ cell_text null_name cell
unfolding key_value
cell-value null_name none text h = cc
cell-value null_name (some none) text h = cc
cell-value null_name (some (some x)) text h = cc

own-key :
    (null_name : String) (names : List String) (idxs : List ℕ) (row : Row) (key : List String)
    (partition : Map String)
    → row_key null_name idxs row ≡ ok key
    → partition_of names key partition ≡ own_partition null_name names idxs row partition
unfolding row_key partition_of
own-key null_name [] [] row key partition h = refl
own-key null_name [] (i ∷ idxs) row key partition h = refl
own-key null_name (name ∷ names) [] row key partition h =
    let e : [] ≡ key = cc in ap (λ k. partition_of (name ∷ names) k partition) (sym e)
own-key null_name (name ∷ names) (i ∷ idxs) row key partition h =
    let (first, found, h1) = >>=-eq-ok (key_value null_name (get_elem? row i)) _ h in
    let (later, rest, h2) = >>=-eq-ok (row_key null_name idxs row) _ h1 in
    let e : first ∷ later ≡ key = cc in
    ap (λ k. partition_of (name ∷ names) k partition) (sym e)
    ∙ ap (λ x. partition_of names later (assign name x partition))
        (cell-value null_name (get_elem? row i) first found)
    ∙ own-key null_name names idxs row later _ rest

weigh_keyed-chunk :
    (weight : Map String → Row → ℕ) (g : Partitioning) (chunk : List Row)
    (keyed : List (List String × Row))
    → keyed_rows g chunk ≡ ok keyed
    → weigh_keyed weight g.part_key_names keyed ≡ weigh_chunk weight g chunk
unfolding keyed_rows
weigh_keyed-chunk weight g [] keyed h =
    let e : [] ≡ keyed = cc in ap (weigh_keyed weight g.part_key_names) (sym e)
weigh_keyed-chunk weight g (row ∷ rows) keyed h =
    let (key, found, h1) = >>=-eq-ok (row_key g.null_part_name g.part_col_idxs row) _ h in
    let (later, rest, h2) = >>=-eq-ok (keyed_rows g rows) _ h1 in
    let e : (key, row) ∷ later ≡ keyed = cc in
    ap (weigh_keyed weight g.part_key_names) (sym e)
    ∙ ap₂ ◌+◌
        (ap (λ x. weight x row)
          (own-key g.null_part_name g.part_key_names g.part_col_idxs row key [] found))
        (weigh_keyed-chunk weight g rows later rest)

no_columns :
    (null_name : String) (names : List String) (row : Row)
    → own_partition null_name names [] row [] ≡ []
no_columns null_name [] row = refl
no_columns null_name (name ∷ names) row = refl

no_idxs : (idxs : List ℕ) → is_empty idxs ≡ true → idxs ≡ []
no_idxs [] h = refl
no_idxs (i ∷ idxs) h = cc

weigh_rows-chunk :
    (weight : Map String → Row → ℕ) (g : Partitioning) (chunk : List Row)
    → is_empty g.part_col_idxs ≡ true
    → weigh_rows weight g.part_key_names [] chunk ≡ weigh_chunk weight g chunk
weigh_rows-chunk weight g [] h = refl
weigh_rows-chunk weight g (row ∷ rows) h =
    ap₂ ◌+◌
      (ap (λ x. weight x row)
        (sym (no_columns g.null_part_name g.part_key_names row)
          ∙ ap (λ idxs. own_partition g.null_part_name g.part_key_names idxs row [])
              (sym (no_idxs g.part_col_idxs h))))
      (weigh_rows-chunk weight g rows h)

-- What `Sink` writes of a chunk, when it throws nothing, is the chunk's rows, each once and with its own
-- partition: each partition column's name with the text of the row's cell at that column's index, where a
-- null stands as the default partition name, and none if the table has no partition columns. Rows are
-- counted by an arbitrary weight of a row and the partition that it is written to.
pub sink_batches-weighs :
    (weight : Map String → Row → ℕ) (g : Partitioning) (chunk : List Row)
    (batches : List (Map String × List Row))
    → sink_batches g chunk ≡ ok batches
    → weigh_batches weight g.part_key_names batches ≡ weigh_chunk weight g chunk
unfolding sink_batches group_batches
sink_batches-weighs weight g chunk batches h = elim (Bool-cases (is_empty g.part_col_idxs)) [
  | inl unpartitioned ↦
      let computed : sink_batches g chunk ≡ ok (([], chunk) ∷ []) = rw unpartitioned refl in
      let e : ([], chunk) ∷ [] ≡ batches = cc in
      ap (weigh_batches weight g.part_key_names) (sym e)
      ∙ omega (arith, weigh_rows-chunk weight g chunk unpartitioned)
  | inr partitioned ↦
      let whole : (keyed_rows g chunk >>= λ keyed.
      ok (group_batches g.part_key_names (group_rows keyed [])))
          ≡ ok batches =
        rw partitioned at h in
      let (keyed, keys, made) = >>=-eq-ok (keyed_rows g chunk) _ whole in
      let e : group_batches g.part_key_names (group_rows keyed []) ≡ batches = cc in
      ap (weigh_batches weight g.part_key_names) (sym e)
      ∙ omega (
        arith,
        group_rows-weight weight g.part_key_names keyed [],
        weigh_keyed-chunk weight g chunk keyed keys,
      )
]
