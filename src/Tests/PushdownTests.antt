-- ===== src/Tests/PushdownTests.antt =====
-- The pushdown theorems at filters over the sample table.
use duckdb_paimon.Prelude.{
  arith, assign, All, ◌↔◌, ◌≡◌, refl, true, false, some, none, [], ◌∷◌, ◌⊎◌, ℕ,
}
use duckdb_paimon.Sql.{
  Expression, nil, cons, bound_column_ref, bound_constant, bound_comparison, bound_conjunction,
  unlisted_class,
}
use duckdb_paimon.Sql.ExpressionType.{compare_equal, conjunction_and}
use duckdb_paimon.TypeUtils.{convert_literal, convert_field_type}
use duckdb_paimon.Pushdown.{
  try_convert_expression, convert_column_comparison, try_convert_comparison, normalize_comparison,
  comparison_function, resolve_column, leaf_comparison,
}
use duckdb_paimon.Pushdown.Truth.{Truth, and_truth, not_truth}
use duckdb_paimon.Pushdown.Semantics.{sql}
use duckdb_paimon.Pushdown.Exactness.{lossy}
use duckdb_paimon.Pushdown.Soundness.{guarded, conversion_sound}
use duckdb_paimon.Pushdown.Negation.{not_over_and_unsound}
use duckdb_paimon.Prelude.Int.{pos, negsuc}
use duckdb_paimon.Sql.{LogicalTypeId}
use duckdb_paimon.TypeUtils.{epoch_millis}
use duckdb_paimon.TypeUtils.Timestamps.{IsExact, epoch_millis-IsExact}
use duckdb_paimon.Scan.{ScanBindData, ScanPhase}
use duckdb_paimon.Partition.{
  pushdown_filter, convert_filters, top_predicate, partition_filters, extract_all,
  try_extract_filters, try_extract, extract_equality, extract_value, column_and_constant,
  combine_filters,
}
use duckdb_paimon.Partition.Extraction.{MatchesAny}
use duckdb_paimon.Partition.Combination.{combine_filters-MatchesAny}
use duckdb_paimon.Partition.Pruning.{Accepts, pushdown_filter_sound}
use duckdb_paimon.Tests.Sample.{
  partitions, part_of, duckdb, builder, get, evaluation, standard, text_value, Row, compare_texts,
}

abbrev p_is_a : Expression
p_is_a = bound_comparison compare_equal (bound_column_ref 0) (bound_constant (text_value "a"))

-- p = 'a' AND f(...), where f is not converted.
abbrev in_part : Expression
in_part = bound_conjunction conjunction_and (cons p_is_a (cons (unlisted_class 0) nil))

abbrev row_a : Row
row_a = ("a", "x")

abbrev pushed : Row → Truth
pushed row = and_truth (compare_texts compare_equal row.0 "a") Truth.holds

conversion_sound_example : evaluation.predicate row_a pushed ≡ Truth.holds
unfolding try_convert_expression try_convert_comparison convert_column_comparison leaf_comparison
    normalize_comparison comparison_function resolve_column convert_literal convert_field_type sql
    guarded
conversion_sound_example =
    conversion_sound duckdb get evaluation standard row_a in_part pushed refl refl refl

not_over_and_unsound_example :
    evaluation.predicate ("a", "x") (λ row. not_truth (pushed row)) ≡ Truth.fails
unfolding try_convert_expression try_convert_comparison convert_column_comparison leaf_comparison
    normalize_comparison comparison_function resolve_column convert_literal convert_field_type sql
    lossy
not_over_and_unsound_example =
    (not_over_and_unsound duckdb get evaluation standard row_a p_is_a (unlisted_class 1)
      (λ row. not_truth (pushed row)) refl refl refl refl refl).1

epoch_millis-IsExact_example :
    IsExact 1000 (negsuc 0) (epoch_millis LogicalTypeId.timestamp (negsuc 0))
epoch_millis-IsExact_example =
    epoch_millis-IsExact LogicalTypeId.timestamp (negsuc 0) (omega arith, omega arith)

abbrev bind : ScanBindData builder.Predicate ℕ
bind = record {
  path = record { warehouse = []; dbname = []; tablename = [] };
  table_data_path = "t";
  paimon_options = [];
  arrow_names = "p" ∷ "v" ∷ [];
  arrow_types = [];
  predicates = none;
  part_keys = "p" ∷ [];
  part_filters = [];
  debug_expected_splits = none;
  table_schema_json = "{}";
  distributed = record {
    phase = ScanPhase.coordinator;
    split_set_id = b'u' ∷ [];
    has_snapshot = false;
    snapshot_id = pos 0;
    schema_id = pos 0;
    append_only = true;
    return_types = [];
    return_names = [];
    portable_options = [];
    assigned_splits = [];
  };
}

abbrev pushed_bind : ScanBindData builder.Predicate ℕ
pushed_bind = record bind {
  predicates = some (λ row. and_truth (pushed row) Truth.holds);
  part_filters = (("p", "a") ∷ []) ∷ [];
}

pushdown_filter_sound_example :
    Accepts duckdb builder get evaluation standard row_a pushed_bind.predicates
    × ((pushed_bind.part_filters ≡ [])
        ⊎ MatchesAny (partitions.part_value row_a) pushed_bind.part_filters)
unfolding pushdown_filter convert_filters top_predicate partition_filters extract_all
    try_extract_filters try_extract extract_equality extract_value column_and_constant
    combine_filters assign try_convert_expression try_convert_comparison convert_column_comparison
    leaf_comparison normalize_comparison comparison_function resolve_column convert_literal
    convert_field_type sql guarded
pushdown_filter_sound_example =
    pushdown_filter_sound duckdb builder get evaluation standard row_a partitions bind pushed_bind
      (in_part ∷ []) refl (refl, tt) (refl, tt)

combine_filters-MatchesAny_example :
    MatchesAny (part_of row_a) (combine_filters (((("p", "a") ∷ []) ∷ []) ∷ []))
    ↔ All (MatchesAny (part_of row_a)) (((("p", "a") ∷ []) ∷ []) ∷ [])
combine_filters-MatchesAny_example =
    combine_filters-MatchesAny (part_of row_a) ((("p", "a") ∷ []) ∷ []) []
