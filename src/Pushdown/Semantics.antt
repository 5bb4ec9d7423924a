-- ===== src/Pushdown/Semantics.antt =====
-- What a filter and a predicate mean on a row. The meaning of scalars, of DuckDB's other
-- expressions and of paimon-cpp's predicates is a parameter; that of the filter's own structure is
-- SQL's three-valued logic.
use duckdb_paimon.Prelude.{ℕ, String, Bool, not, some, List, map, ◌≡◌, if◌then◌else◌}
use duckdb_paimon.Sql.{
  Duckdb, Value, Expression, Expressions, ExpressionType, LogicalGet, ok, nil, cons,
  bound_column_ref, bound_constant, bound_comparison, bound_conjunction, bound_between,
  bound_operator, bound_function,
}
use duckdb_paimon.Sql.ExpressionType.{
  compare_equal, compare_lessthan, compare_lessthanorequalto, compare_greaterthan,
  compare_greaterthanorequalto, compare_in, compare_not_in, operator_is_null, operator_is_not_null,
  operator_not, conjunction_and, conjunction_or,
}
use duckdb_paimon.TypeUtils.{FieldType, Literal, convert_literal}
use duckdb_paimon.Paimon.{value, Comparison, equal, TextMatch, PredicateBuilder}
use duckdb_paimon.Pushdown.Truth.{
  Truth, of_bool, not_truth, and_truth, or_truth, all_truth, any_truth,
}
use duckdb_paimon.Pushdown.{
  Column, resolve_column, comparison_function, classify_function, text_function,
}

-- Rows, scalars and predicates, and the parts of an evaluation that DuckDB and paimon-cpp own.
pub record Evaluation (b : PredicateBuilder) : Type 1 where
  pub Row : Type 0
  pub Scalar : Type 0
  pub scalar : Row → Expression → Scalar
  pub compare : ExpressionType → Scalar → Scalar → Truth
  pub null_test : Scalar → Bool
  -- A function of two arguments, such as `prefix`.
  pub apply_text : String → Scalar → Scalar → Truth
  -- A filter that the extension does not look into.
  pub other_filter : Row → Expression → Truth
  pub predicate : Row → b.Predicate → Truth

module _ {b : PredicateBuilder} (s : Evaluation b) (row : s.Row) where
  -- The comparisons of `x IN (children)`.
  abbrev pub equal_to_each : s.Scalar → Expressions → Truth
  equal_to_each x nil = Truth.fails
  equal_to_each x (cons child rest) =
      or_truth (s.compare compare_equal x (s.scalar row child)) (equal_to_each x rest)

  abbrev pub sql_column_operator : ExpressionType → Expressions → Truth
  sql_column_operator operator_is_null (cons child rest) =
      of_bool (s.null_test (s.scalar row child))
  sql_column_operator operator_is_not_null (cons child rest) =
      of_bool (not (s.null_test (s.scalar row child)))
  sql_column_operator compare_in (cons child rest) = equal_to_each (s.scalar row child) rest
  sql_column_operator compare_not_in (cons child rest) =
      not_truth (equal_to_each (s.scalar row child) rest)
  sql_column_operator t children = s.other_filter row (bound_operator t children)

  abbrev pub sql_between : Expression → Expression → Expression → Bool → Bool → Truth
  sql_between input lower upper li ui =
      and_truth
        (s.compare (if li then compare_greaterthanorequalto else compare_greaterthan)
          (s.scalar row input) (s.scalar row lower))
        (s.compare (if ui then compare_lessthanorequalto else compare_lessthan) (s.scalar row input)
          (s.scalar row upper))

  abbrev pub sql_function : String → Expressions → Truth
  sql_function name (cons subject (cons pattern rest)) =
      s.apply_text name (s.scalar row subject) (s.scalar row pattern)
  sql_function name children = s.other_filter row (bound_function name children)

  unfoldable mutual
    -- The truth value of a filter expression on the row.
    pub sql : Expression → Truth
    sql (bound_comparison t left right) = s.compare t (s.scalar row left) (s.scalar row right)
    sql (bound_conjunction conjunction_and children) = sql_all children
    sql (bound_conjunction conjunction_or children) = sql_any children
    sql (bound_between input lower upper li ui) = sql_between input lower upper li ui
    sql (bound_operator t children) = sql_operator t children
    sql (bound_function name children) = sql_function name children
    sql e = s.other_filter row e

    pub sql_operator : ExpressionType → Expressions → Truth
    sql_operator operator_not (cons child rest) = not_truth (sql child)
    sql_operator t children = sql_column_operator t children

    pub sql_all : Expressions → Truth
    sql_all nil = Truth.holds
    sql_all (cons child rest) = and_truth (sql child) (sql_all rest)

    pub sql_any : Expressions → Truth
    sql_any nil = Truth.fails
    sql_any (cons child rest) = or_truth (sql child) (sql_any rest)

-- What is documented of DuckDB's comparisons and of paimon-cpp's predicates: a leaf predicate means
-- what SQL means by the comparison of the column with the constant, and the compound ones join
-- truth values.
pub record IsStandard (db : Duckdb) {b : PredicateBuilder} (get : LogicalGet) (s : Evaluation b)
    : Type 0 where
  pub flip :
      (t : ExpressionType) (f : Comparison) (x y : s.Scalar)
      → comparison_function t ≡ some f
      → s.compare (db.flip_comparison t) x y ≡ s.compare t y x
  pub comparison :
      (row : s.Row) (t : ExpressionType) (f : Comparison) (c : ℕ) (column : Column) (v : Value)
      (l : Literal)
      → comparison_function t ≡ some f
      → resolve_column get c ≡ ok column
      → convert_literal db v column.paimon_type ≡ ok (some l)
      → s.predicate row (b.comparison f column.field_index column.field_name column.paimon_type l)
        ≡ s.compare t (s.scalar row (bound_column_ref c)) (s.scalar row (bound_constant v))
  pub is_null :
      (row : s.Row) (c : ℕ) (column : Column)
      → resolve_column get c ≡ ok column
      → s.predicate row (b.is_null column.field_index column.field_name column.paimon_type)
        ≡ of_bool (s.null_test (s.scalar row (bound_column_ref c)))
  pub is_not_null :
      (row : s.Row) (c : ℕ) (column : Column)
      → resolve_column get c ≡ ok column
      → s.predicate row (b.is_not_null column.field_index column.field_name column.paimon_type)
        ≡ of_bool (not (s.null_test (s.scalar row (bound_column_ref c))))
  pub in_list :
      (row : s.Row) (i : ℕ) (name : String) (type : FieldType) (ls : List Literal)
      → s.predicate row (b.in_list i name type ls)
        ≡ any_truth (map (λ l. s.predicate row (b.comparison equal i name type l)) ls)
  pub not_in_list :
      (row : s.Row) (i : ℕ) (name : String) (type : FieldType) (ls : List Literal)
      → s.predicate row (b.not_in_list i name type ls)
        ≡ not_truth (any_truth (map (λ l. s.predicate row (b.comparison equal i name type l)) ls))
  pub text_match :
      (row : s.Row) (name : String) (f : TextMatch) (c : ℕ) (column : Column) (v : Value)
      (l : Literal) (p : b.Predicate)
      → text_function (classify_function name) ≡ some f
      → resolve_column get c ≡ ok column
      → convert_literal db v column.paimon_type ≡ ok (some l)
      → b.text_match f column.field_index column.field_name column.paimon_type l ≡ value p
      → s.predicate row p
        ≡ s.apply_text name (s.scalar row (bound_column_ref c)) (s.scalar row (bound_constant v))
  pub and_of :
      (row : s.Row) (ps : List b.Predicate) (p : b.Predicate)
      → b.and_of ps ≡ value p
      → s.predicate row p ≡ all_truth (map (s.predicate row) ps)
  pub or_of :
      (row : s.Row) (ps : List b.Predicate) (p : b.Predicate)
      → b.or_of ps ≡ value p
      → s.predicate row p ≡ any_truth (map (s.predicate row) ps)
  pub not_of :
      (row : s.Row) (q p : b.Predicate)
      → b.not_of q ≡ value p
      → s.predicate row p ≡ not_truth (s.predicate row q)
