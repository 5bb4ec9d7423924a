-- ===== src/Pushdown.antt =====
-- src/paimon_storage/paimon_scan.cpp: the conversion of DuckDB filter expressions to paimon-cpp
-- predicates. `none` is the null pointer: the filter is not pushed down.
pub mod Truth
pub mod Semantics
pub mod Leaves
pub mod InLists
pub mod Exactness
pub mod Soundness
pub mod Negation
use duckdb_paimon.Prelude.{
  ℕ, String, Bool, true, false, not, Option, none, some, List, [], ◌∷◌, ◌==◌, get_elem?, is_empty,
  if◌then◌else◌, ◌≡◌,
}
use duckdb_paimon.Sql.{
  Duckdb, Value, Expression, Expressions, ExpressionType, LogicalGet, Result, ok, throw, ◌>>=◌,
  internal_exception, nil, cons, bound_column_ref, bound_constant, bound_comparison,
  bound_conjunction, bound_between, bound_operator, bound_function, unlisted_class,
}
use duckdb_paimon.Sql.ExpressionType.{
  compare_equal, compare_notequal, compare_lessthan, compare_lessthanorequalto, compare_greaterthan,
  compare_greaterthanorequalto, compare_in, compare_not_in, operator_is_null, operator_is_not_null,
  operator_not, conjunction_and, conjunction_or,
}
use duckdb_paimon.TypeUtils.{FieldType, Literal, convert_field_type, convert_literal}
use duckdb_paimon.Paimon.{
  Outcome, value, status, Comparison, equal, not_equal, less_than, less_or_equal, greater_than,
  greater_or_equal, TextMatch, starts_with, ends_with, contains, like, PredicateBuilder,
}

-- `result.ok() ? result.value() : nullptr`
abbrev pub value_or_null {ℓ} : {A : Type ℓ} → Outcome A → Option A
value_or_null (value a) = some a
value_or_null (status s) = none

-- What the code looks up of a column reference: the field's index, name and paimon type.
pub record Column : Type 0 where
  pub field_index : ℕ
  pub field_name : String
  pub paimon_type : FieldType

-- `get.GetColumnIds()[binding]`, which throws out of range, then the column's name and type.
unfoldable pub resolve_column : LogicalGet → ℕ → Result Column
resolve_column get binding = elim (get_elem? get.column_ids binding) [
  | none ↦ throw (internal_exception "Attempted to access index within vector")
  | some col_idx ↦ ok (record {
    field_index = col_idx;
    field_name = get.column_name col_idx;
    paimon_type = convert_field_type (get.column_type col_idx);
  })
]

-- The comparison types that paimon-cpp supports, and their builder functions.
unfoldable pub comparison_function : ExpressionType → Option Comparison
comparison_function compare_equal = some equal
comparison_function compare_notequal = some not_equal
comparison_function compare_lessthan = some less_than
comparison_function compare_lessthanorequalto = some less_or_equal
comparison_function compare_greaterthan = some greater_than
comparison_function compare_greaterthanorequalto = some greater_or_equal
comparison_function _ = none

pub data PushdownFunction : Type 0 where
  prefix suffix contains_part like_pattern unsupported : PushdownFunction

unfoldable pub classify_function : String → PushdownFunction
classify_function name =
    if name == "prefix"
    then prefix
    else if name == "suffix"
    then suffix
    else if name == "contains"
    then contains_part
    else if name == "~~"
    then like_pattern
    else unsupported

-- The second switch on the function's class.
unfoldable pub text_function : PushdownFunction → Option TextMatch
text_function prefix = some starts_with
text_function suffix = some ends_with
text_function contains_part = some contains
text_function like_pattern = some like
text_function unsupported = none

abbrev pub is_string : FieldType → Bool
is_string FieldType.string = true
is_string _ = false

abbrev pub is_or : ExpressionType → Bool
is_or conjunction_or = true
is_or _ = false

abbrev pub prepend {ℓ} : {A : Type ℓ} → A → Option (List A) → Option (List A)
prepend x none = none
prepend x (some xs) = some (x ∷ xs)

-- One round of a loop that collects what it can convert; `later` is the rest of the loop. An item
-- that is not converted is passed over, or ends the whole conversion with a null pointer.
abbrev pub add_item {ℓ} :
    {A : Type ℓ} → Bool → Option A → Result (Option (List A)) → Result (Option (List A))
add_item all_needed (some x) later = later >>= λ xs. ok (prepend x xs)
add_item all_needed none later = if all_needed then ok none else later

module _ (db : Duckdb) where
  -- Normalise to column OP constant; flip the comparison where the constant stands left.
  unfoldable pub normalize_comparison :
      ExpressionType → Expression → Expression → Option (ExpressionType × ℕ × Value)
  normalize_comparison t (bound_column_ref c) (bound_constant v) = some (t, c, v)
  normalize_comparison t (bound_constant v) (bound_column_ref c) = some (db.flip_comparison t, c, v)
  normalize_comparison t _ _ = none

  -- The literals of `col IN (...)` from children[1..n]. A child that cannot be converted ends an
  -- IN; a NOT IN goes on without it.
  unfoldable pub collect_literals : Bool → FieldType → Expressions → Result (Option (List Literal))
  collect_literals is_not_in type nil = ok (some [])
  collect_literals is_not_in type (cons (bound_constant v) rest) = do
    literal ← convert_literal db v type
    let later = collect_literals is_not_in type rest
    add_item (not is_not_in) literal later
  collect_literals is_not_in type (cons _ rest) =
      let later = collect_literals is_not_in type rest in if is_not_in then later else ok none

module _ (db : Duckdb) (b : PredicateBuilder) (get : LogicalGet) where
  open b use {Predicate}

  -- A leaf predicate, once the literal is known and the comparison is supported.
  unfoldable pub leaf_comparison : Column → Option Literal → Option Comparison → Option Predicate
  leaf_comparison column none f = none
  leaf_comparison column (some l) none = none
  leaf_comparison column (some l) (some f) =
      some (b.comparison f column.field_index column.field_name column.paimon_type l)

  -- From `filter_binding_idx` on: the column's lookup, the literal and the builder's call.
  unfoldable pub convert_column_comparison : ExpressionType → ℕ → Value → Result (Option Predicate)
  convert_column_comparison t c v = do
    column ← resolve_column get c
    literal ← convert_literal db v column.paimon_type
    ok (leaf_comparison column literal (comparison_function t))

  abbrev pub convert_normalized : Option (ExpressionType × ℕ × Value) → Result (Option Predicate)
  convert_normalized none = ok none
  convert_normalized (some (t, c, v)) = convert_column_comparison t c v

  unfoldable pub try_convert_comparison :
      ExpressionType → Expression → Expression → Result (Option Predicate)
  try_convert_comparison t left right = elim (comparison_function t) [
    | none ↦ ok none
    | some _ ↦ convert_normalized (normalize_comparison db t left right)
  ]

  unfoldable pub between_bounds :
      Column → Option Literal → Option Literal → Bool → Bool → Option Predicate
  between_bounds column (some lower) (some upper) lower_inclusive upper_inclusive =
      let lower_pred =
        b.comparison (if lower_inclusive then greater_or_equal else greater_than) column.field_index
          column.field_name column.paimon_type lower in
      let upper_pred =
        b.comparison (if upper_inclusive then less_or_equal else less_than) column.field_index
          column.field_name column.paimon_type upper in
      value_or_null (b.and_of (lower_pred ∷ upper_pred ∷ []))
  between_bounds column _ _ lower_inclusive upper_inclusive = none

  unfoldable pub try_convert_between :
      Expression → Expression → Expression → Bool → Bool → Result (Option Predicate)
  try_convert_between (bound_column_ref c) (bound_constant low) (bound_constant high) li ui = do
    column ← resolve_column get c
    lower ← convert_literal db low column.paimon_type
    upper ← convert_literal db high column.paimon_type
    ok (between_bounds column lower upper li ui)
  try_convert_between _ _ _ li ui = ok none

  pub in_predicate : Bool → Column → Option (List Literal) → Option Predicate
  in_predicate is_not_in column none = none
  in_predicate is_not_in column (some []) = none
  in_predicate is_not_in column (some (l ∷ ls)) =
      let build = if is_not_in then b.not_in_list else b.in_list in
      some (build column.field_index column.field_name column.paimon_type (l ∷ ls))

  -- The second switch of `TryConvertOperator`, on a column and the other children.
  pub column_operator : ExpressionType → Column → Expressions → Result (Option Predicate)
  unfolding in_predicate
  column_operator operator_is_null column rest =
      ok (some (b.is_null column.field_index column.field_name column.paimon_type))
  column_operator operator_is_not_null column rest =
      ok (some (b.is_not_null column.field_index column.field_name column.paimon_type))
  column_operator compare_in column rest = do
    literals ← collect_literals db false column.paimon_type rest
    ok (in_predicate false column literals)
  column_operator compare_not_in column rest = do
    literals ← collect_literals db true column.paimon_type rest
    ok (in_predicate true column literals)
  column_operator _ column rest = ok none

  abbrev takes_column : ExpressionType → Bool
  takes_column operator_is_null = true
  takes_column operator_is_not_null = true
  takes_column compare_in = true
  takes_column compare_not_in = true
  takes_column _ = false

  -- The part of `TryConvertOperator` behind the column-reference gate.
  pub try_convert_column_operator : ExpressionType → Expressions → Result (Option Predicate)
  try_convert_column_operator t nil =
      if takes_column t
      then throw (internal_exception "Attempted to access index within vector")
      else ok none
  try_convert_column_operator t (cons (bound_column_ref c) rest) =
      if takes_column t
      then (do column ← resolve_column get c; column_operator t column rest)
      else ok none
  try_convert_column_operator t (cons _ rest) = ok none

  match_literal : TextMatch → Column → Option Literal → Option Predicate
  match_literal f column none = none
  match_literal f column (some l) =
      value_or_null (b.text_match f column.field_index column.field_name column.paimon_type l)

  text_predicate : TextMatch → Column → Expressions → Result (Option Predicate)
  text_predicate f column nil = throw (internal_exception "Attempted to access index within vector")
  text_predicate f column (cons (bound_constant v) rest) = do
    literal ← convert_literal db v column.paimon_type
    ok (match_literal f column literal)
  text_predicate f column (cons _ rest) = ok none

  -- The function's first argument must be a column of type STRING.
  convert_text_match : TextMatch → Expressions → Result (Option Predicate)
  convert_text_match f nil = throw (internal_exception "Attempted to access index within vector")
  convert_text_match f (cons (bound_column_ref c) rest) = do
    column ← resolve_column get c
    if is_string column.paimon_type then text_predicate f column rest else ok none
  convert_text_match f (cons _ rest) = ok none

  pub try_convert_function : String → Expressions → Result (Option Predicate)
  unfolding convert_text_match text_predicate match_literal
  try_convert_function name children = elim (text_function (classify_function name)) [
    | none ↦ ok none
    | some f ↦ convert_text_match f children
  ]

  -- The end of `TryConvertConjunction`: none is the early return of an OR.
  pub combine : ExpressionType → Option (List Predicate) → Option Predicate
  combine t none = none
  combine t (some []) = none
  combine conjunction_and (some (p ∷ ps)) = value_or_null (b.and_of (p ∷ ps))
  combine conjunction_or (some (p ∷ ps)) = value_or_null (b.or_of (p ∷ ps))
  combine _ (some (p ∷ ps)) = none

  pub negate : Option Predicate → Option Predicate
  negate none = none
  negate (some p) = value_or_null (b.not_of p)

  unfoldable mutual
    unfolding combine negate try_convert_column_operator column_operator try_convert_function

    pub try_convert_expression : Expression → Result (Option Predicate)
    try_convert_expression (bound_comparison t left right) = try_convert_comparison t left right
    try_convert_expression (bound_conjunction t children) = do
      predicates ← convert_children t children
      ok (combine t predicates)
    try_convert_expression (bound_between input lower upper li ui) =
        try_convert_between input lower upper li ui
    try_convert_expression (bound_operator t children) = try_convert_operator t children
    try_convert_expression (bound_function name children) = try_convert_function name children
    try_convert_expression _ = ok none

    pub try_convert_operator : ExpressionType → Expressions → Result (Option Predicate)
    try_convert_operator operator_not nil =
        throw (internal_exception "Attempted to access index within vector")
    try_convert_operator operator_not (cons child rest) = do
      predicate ← try_convert_expression child
      ok (negate predicate)
    try_convert_operator t children = try_convert_column_operator t children

    pub convert_children : ExpressionType → Expressions → Result (Option (List Predicate))
    convert_children t nil = ok (some [])
    convert_children t (cons child rest) =
        let later = convert_children t rest in
        try_convert_expression child >>= λ p. add_item (is_or t) p later
