-- ===== src/Partition.antt =====
-- src/paimon_storage/paimon_scan.cpp: the equality conditions on partition keys that are extracted
-- from the filters, their combination, and `PaimonPushdownFilter`.
pub mod Extraction
pub mod Combination
pub mod Pruning
use duckdb_paimon.Prelude.{
  ℕ, String, Bool, true, false, Option, none, some, List, [], ◌∷◌, ◌++◌, ◌≡◌, ◌==◌, ◌||◌, elem, Map,
  lookup, assign, emplace, get_elem?, is_empty, if◌then◌else◌,
}
use duckdb_paimon.Sql.{
  Duckdb, Value, Expression, Expressions, ExpressionType, LogicalGet, Result, ok, throw, ◌>>=◌,
  internal_exception, io_exception, nil, cons, bound_column_ref, bound_constant, bound_comparison,
  bound_conjunction,
}
use duckdb_paimon.Sql.ExpressionType.{compare_equal, conjunction_and, conjunction_or}
use duckdb_paimon.Paimon.{Outcome, value, status, PredicateBuilder}
use duckdb_paimon.Pushdown.{try_convert_expression}
use duckdb_paimon.Scan.{ScanBindData}

abbrev pub PartFilter : Type 0
PartFilter = Map String

-- The column and the constant of an equality, on whichever side they stand.
unfoldable pub column_and_constant : Expression → Expression → Option (ℕ × Value)
column_and_constant (bound_column_ref c) (bound_constant v) = some (c, v)
column_and_constant (bound_constant v) (bound_column_ref c) = some (c, v)
column_and_constant _ _ = none

abbrev pub when_matched : Bool × PartFilter → List PartFilter
when_matched (true, part_filter) = part_filter ∷ []
when_matched (false, part_filter) = []

abbrev pub add_branch : PartFilter → Option (List PartFilter) → Option (List PartFilter)
add_branch m none = none
add_branch m (some ms) = some (m ∷ ms)

abbrev pub or_nothing : Option (List PartFilter) → List PartFilter
or_nothing none = []
or_nothing (some ms) = ms

module _ (get : LogicalGet) (part_keys : List String) where
  -- Only a partition key, and only a value that is not NULL, gives a filter.
  unfoldable pub extract_value : ℕ → Value → PartFilter → Bool × PartFilter
  extract_value col_idx v part_filter =
      if elem (get.column_name col_idx) part_keys
      then (if v.is_null
          then (false, part_filter)
          else (true, assign (get.column_name col_idx) v.to_string part_filter))
      else (false, part_filter)

  unfoldable pub extract_equality : Option (ℕ × Value) → PartFilter → Result (Bool × PartFilter)
  extract_equality none part_filter = ok (false, part_filter)
  extract_equality (some (c, v)) part_filter = elim (get_elem? get.column_ids c) [
    | none ↦ throw (internal_exception "Attempted to access index within vector")
    | some col_idx ↦ ok (extract_value col_idx v part_filter)
  ]

  -- `TryExtractPartitionFilter`: whether anything was extracted, and the map that it fills.
  unfoldable mutual
    pub try_extract : Expression → PartFilter → Result (Bool × PartFilter)
    try_extract (bound_comparison compare_equal left right) part_filter =
        extract_equality (column_and_constant left right) part_filter
    try_extract (bound_conjunction conjunction_and children) part_filter =
        try_extract_each children part_filter
    try_extract _ part_filter = ok (false, part_filter)

    pub try_extract_each : Expressions → PartFilter → Result (Bool × PartFilter)
    try_extract_each nil part_filter = ok (false, part_filter)
    try_extract_each (cons child rest) part_filter = do
      first ← try_extract child part_filter
      later ← try_extract_each rest first.1
      ok (first.0 || later.0, later.1)

  -- The loop over the children of an OR; `none` is its early return.
  unfoldable pub extract_branches : Expressions → Result (Option (List PartFilter))
  extract_branches nil = ok (some [])
  extract_branches (cons child rest) =
      let later = extract_branches rest in
      try_extract child [] >>= λ found.
      if found.0 then later >>= (λ ms. ok (add_branch found.1 ms)) else ok none

  -- `TryExtractPartitionFilters`: the maps of the result are alternatives.
  unfoldable pub try_extract_filters : Expression → Result (List PartFilter)
  try_extract_filters (bound_conjunction conjunction_or children) = do
    branches ← extract_branches children
    ok (or_nothing branches)
  try_extract_filters (bound_conjunction conjunction_and children) = do
    found ← try_extract (bound_conjunction conjunction_and children) []
    ok (when_matched found)
  try_extract_filters (bound_comparison t left right) = do
    found ← try_extract (bound_comparison t left right) []
    ok (when_matched found)
  try_extract_filters _ = ok []

  -- The loop that fills `per_expr`; a filter that gives nothing is left out.
  unfoldable pub extract_all : List Expression → Result (List (List PartFilter))
  extract_all [] = ok []
  extract_all (filter ∷ filters) = do
    found ← try_extract_filters filter
    later ← extract_all filters
    ok (if is_empty found then later else found ∷ later)

-- `merge_part_filter`: none where the maps give one key two values.
unfoldable pub merge_part_filter : PartFilter → PartFilter → Option PartFilter
merge_part_filter merged [] = some merged
merge_part_filter merged ((k, v) ∷ incoming) = elim (lookup k merged) [
  | none ↦ merge_part_filter (emplace k v merged) incoming
  | some w ↦ let rest = merge_part_filter merged incoming in if w == v then rest else none
]

abbrev pub keep_merged : Option PartFilter → List PartFilter → List PartFilter
keep_merged none next = next
keep_merged (some merged) next = merged ∷ next

-- The two inner loops of the cross-product.
unfoldable pub merge_with_each : PartFilter → List PartFilter → List PartFilter
merge_with_each existing [] = []
merge_with_each existing (incoming ∷ rest) =
    keep_merged (merge_part_filter existing incoming) (merge_with_each existing rest)

unfoldable pub cross_product : List PartFilter → List PartFilter → List PartFilter
cross_product [] incoming = []
cross_product (existing ∷ rest) incoming =
    merge_with_each existing incoming ++ cross_product rest incoming

unfoldable pub combine_from : List PartFilter → List (List PartFilter) → List PartFilter
combine_from combined [] = combined
combine_from combined (next ∷ rest) = combine_from (cross_product combined next) rest

unfoldable pub combine_filters : List (List PartFilter) → List PartFilter
unfolding combine_from
combine_filters [] = []
combine_filters (first ∷ rest) = combine_from first rest

module _ (db : Duckdb) (b : PredicateBuilder) (get : LogicalGet) where
  -- The predicates of the filters that can be converted, in order.
  unfoldable pub convert_filters : List Expression → Result (List b.Predicate)
  convert_filters [] = ok []
  convert_filters (filter ∷ filters) = do
    predicate ← try_convert_expression db b get filter
    later ← convert_filters filters
    ok (elim predicate [ none ↦ later | some p ↦ p ∷ later ])

  unfoldable pub top_predicate : List b.Predicate → Result (Option b.Predicate)
  top_predicate [] = ok none
  top_predicate (p ∷ ps) = elim (b.and_of (p ∷ ps)) [
    | value q ↦ ok (some q)
    | status e ↦ throw (io_exception e.text)
  ]

  unfoldable pub partition_filters : List String → List Expression → Result (List PartFilter)
  partition_filters [] filters = ok []
  partition_filters (key ∷ keys) filters = do
    per_expr ← extract_all get (key ∷ keys) filters
    ok (combine_filters per_expr)

  -- `PaimonPushdownFilter`. The filter list itself is not changed: DuckDB evaluates it again.
  unfoldable pub pushdown_filter :
      {Split : Type 0}
      → ScanBindData b.Predicate Split
      → List Expression
      → Result (ScanBindData b.Predicate Split)
  pushdown_filter bind filters = do
    predicates ← convert_filters filters
    top ← top_predicate predicates
    part_filters ← partition_filters bind.part_keys filters
    ok (record bind { predicates = top; part_filters = part_filters })
