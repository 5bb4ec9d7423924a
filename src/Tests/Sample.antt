-- ===== src/Tests/Sample.antt =====
-- A table of two text columns, p and v, with a predicate builder that evaluates predicates at once.
use Prim.Native.String.{compare}
use Prim.Native.Nat.{Ordering}
use duckdb_paimon.Prelude.{
  ℕ, zero, suc, String, Bool, true, false, not, some, [], ◌∷◌, map, ◌≡◌, refl, ap, arith, ◌==◌,
  eq_iff, if◌then◌else◌, get_elem?,
}
use duckdb_paimon.Prelude.Int.{pos, negsuc}
use duckdb_paimon.Sql.{
  Duckdb, Value, LogicalType, LogicalTypeId, PhysicalType, Expression, ExpressionType, LogicalGet,
  ok, bound_column_ref, bound_constant, unlisted_class,
}
use duckdb_paimon.Sql.ExpressionType.{
  compare_equal, compare_notequal, compare_lessthan, compare_lessthanorequalto, compare_greaterthan,
  compare_greaterthanorequalto,
}
use duckdb_paimon.TypeUtils.{FieldType, Literal, convert_literal, convert_field_type}
use duckdb_paimon.Paimon.{
  value, status, Comparison, equal, not_equal, less_than, less_or_equal, greater_than,
  greater_or_equal, PredicateBuilder,
}
use duckdb_paimon.Pushdown.Truth.{Truth, of_bool, not_truth, all_truth, any_truth}
use duckdb_paimon.Pushdown.Semantics.{Evaluation, IsStandard}
use duckdb_paimon.Pushdown.{Column, resolve_column, comparison_function}
use duckdb_paimon.Partition.Extraction.{PartitionValues}

abbrev pub varchar_type : LogicalType
varchar_type = record {
  id = LogicalTypeId.varchar;
  width = 0;
  scale = 0;
  internal_type = PhysicalType.unlisted_physical 0;
}

abbrev pub text_value : String → Value
text_value t = record {
  is_null = false;
  type = varchar_type;
  to_string = t;
  get_bool = false;
  get_int8 = pos 0;
  get_int16 = pos 0;
  get_int32 = pos 0;
  get_int64 = pos 0;
  get_float = 0;
  get_double = 0;
  get_timestamp = pos 0;
  get_hugeint = record { upper = pos 0; lower = 0 };
}

abbrev pub flip : ExpressionType → ExpressionType
flip compare_lessthan = compare_greaterthan
flip compare_lessthanorequalto = compare_greaterthanorequalto
flip compare_greaterthan = compare_lessthan
flip compare_greaterthanorequalto = compare_lessthanorequalto
flip t = t

abbrev pub duckdb : Duckdb
duckdb = record {
  hugeint_convert = elim [
    | pos n ↦ record { upper = pos 0; lower = n }
    | negsuc n ↦ record { upper = negsuc 0; lower = 18446744073709551615 }
  ];
  flip_comparison = flip;
}

abbrev pub get : LogicalGet
get = record {
  column_ids = 0 ∷ 1 ∷ [];
  column_type = λ i. varchar_type;
  column_name = elim [ zero ↦ "p" | suc i ↦ "v" ];
}

abbrev pub Row : Type 0
Row = String × String

abbrev pub cell : Row → ℕ → String
cell row zero = row.0
cell row (suc i) = row.1

abbrev pub less : String → String → Bool
less x y = elim (compare x y) [ Ordering.lt ↦ true | _ ↦ false ]

abbrev pub compare_texts : ExpressionType → String → String → Truth
compare_texts compare_equal x y = of_bool (x == y)
compare_texts compare_notequal x y = of_bool (not (x == y))
compare_texts compare_lessthan x y = of_bool (less x y)
compare_texts compare_lessthanorequalto x y = of_bool (not (less y x))
compare_texts compare_greaterthan x y = of_bool (less y x)
compare_texts compare_greaterthanorequalto x y = of_bool (not (less x y))
compare_texts _ x y = Truth.unknown

abbrev pub leaf : Comparison → String → String → Truth
leaf equal = compare_texts compare_equal
leaf not_equal = compare_texts compare_notequal
leaf less_than = compare_texts compare_lessthan
leaf less_or_equal = compare_texts compare_lessthanorequalto
leaf greater_than = compare_texts compare_greaterthan
leaf greater_or_equal = compare_texts compare_greaterthanorequalto

abbrev pub literal_text : Literal → String
literal_text (Literal.string t) = t
literal_text _ = ""

abbrev pub apply_to : Row → (Row → Truth) → Truth
apply_to row p = p row

abbrev pub builder : PredicateBuilder
builder = record {
  Predicate = Row → Truth;
  comparison = λ f i name type l row. leaf f (cell row i) (literal_text l);
  is_null = λ i name type row. Truth.fails;
  is_not_null = λ i name type row. Truth.holds;
  in_list =
      λ i name type ls row. any_truth (map (λ l. leaf equal (cell row i) (literal_text l)) ls);
  not_in_list = λ i name type ls row.
      not_truth (any_truth (map (λ l. leaf equal (cell row i) (literal_text l)) ls));
  text_match = λ f i name type l.
      status (record { text = "Not supported"; is_exist = false; is_not_exist = false });
  and_of = λ ps. value (λ row. all_truth (map (apply_to row) ps));
  or_of = λ ps. value (λ row. any_truth (map (apply_to row) ps));
  not_of = λ p. value (λ row. not_truth (p row));
}

abbrev pub scalar_text : Row → Expression → String
scalar_text row (bound_column_ref zero) = row.0
scalar_text row (bound_column_ref (suc c)) = row.1
scalar_text row (bound_constant v) = v.to_string
scalar_text row _ = ""

-- Two filters that the extension does not look into: one passes every row, the other none.
abbrev pub other_text : Row → Expression → Truth
other_text row (unlisted_class zero) = Truth.holds
other_text row _ = Truth.fails

abbrev pub evaluation : Evaluation builder
evaluation = record {
  Row = Row;
  Scalar = String;
  scalar = scalar_text;
  compare = compare_texts;
  null_test = λ x. false;
  apply_text = λ name x y. Truth.unknown;
  other_filter = other_text;
  predicate = apply_to;
}

eq_symmetric : (x y : String) → (x == y) ≡ (y == x)
eq_symmetric x y = ground (arith, eq_iff x y, eq_iff y x)

compare_flip :
    (t : ExpressionType) (f : Comparison) (x y : String)
    → comparison_function t ≡ some f
    → compare_texts (flip t) x y ≡ compare_texts t y x
unfolding comparison_function
compare_flip compare_equal f x y h = ap of_bool (eq_symmetric x y)
compare_flip compare_notequal f x y h = ap (λ e. of_bool (not e)) (eq_symmetric x y)
compare_flip compare_lessthan f x y h = refl
compare_flip compare_lessthanorequalto f x y h = refl
compare_flip compare_greaterthan f x y h = refl
compare_flip compare_greaterthanorequalto f x y h = refl
compare_flip _ f x y h = cc

-- Both columns have type STRING, and their bindings are their indexes.
column_of :
    (c : ℕ) (column : Column)
    → resolve_column get c ≡ ok column
    → (column.paimon_type ≡ FieldType.string)
      × ((row : Row) → cell row column.field_index ≡ scalar_text row (bound_column_ref c))
unfolding resolve_column convert_field_type
column_of zero column h = (ground arith, λ row. ground arith)
column_of (suc zero) column h = (ground arith, λ row. ground arith)
column_of (suc (suc c)) column h = cc

literal_of_text :
    (v : Value) (l : Literal) (type : FieldType)
    → type ≡ FieldType.string
    → convert_literal duckdb v type ≡ ok (some l)
    → literal_text l ≡ v.to_string
unfolding convert_literal
literal_of_text v l type e h = read (rw e at h)
  where
    read : convert_literal duckdb v FieldType.string ≡ ok (some l) → literal_text l ≡ v.to_string
    read k = ground arith

leaf-compare :
    (t : ExpressionType) (f : Comparison) (x y : String)
    → comparison_function t ≡ some f
    → leaf f x y ≡ compare_texts t x y
unfolding comparison_function
leaf-compare compare_equal f x y h = ground arith
leaf-compare compare_notequal f x y h = ground arith
leaf-compare compare_lessthan f x y h = ground arith
leaf-compare compare_lessthanorequalto f x y h = ground arith
leaf-compare compare_greaterthan f x y h = ground arith
leaf-compare compare_greaterthanorequalto f x y h = ground arith
leaf-compare _ f x y h = cc

cell-scalar :
    (row : Row) (c : ℕ) (column : Column)
    → resolve_column get c ≡ ok column
    → cell row column.field_index ≡ scalar_text row (bound_column_ref c)
cell-scalar row c column found = (column_of c column found).1 row

leaf_standard :
    (row : Row) (t : ExpressionType) (f : Comparison) (c : ℕ) (column : Column) (v : Value)
    (l : Literal)
    → comparison_function t ≡ some f
    → resolve_column get c ≡ ok column
    → convert_literal duckdb v column.paimon_type ≡ ok (some l)
    → leaf f (cell row column.field_index) (literal_text l)
      ≡ compare_texts t (scalar_text row (bound_column_ref c)) v.to_string
leaf_standard row t f c column v l e found converted =
    rw
      (
        cell-scalar row c column found,
        literal_of_text v l column.paimon_type (column_of c column found).0 converted,
      )
      (leaf-compare t f _ _ e)

-- The sample meets what is documented of DuckDB and paimon-cpp.
pub standard : IsStandard duckdb get evaluation
standard = record {
  flip = compare_flip;
  comparison = leaf_standard;
  is_null = λ row c column found. refl;
  is_not_null = λ row c column found. refl;
  in_list = λ row i name type ls. refl;
  not_in_list = λ row i name type ls. refl;
  text_match = λ row name f c column v l p e found converted built. cc;
  and_of = λ row ps p h. of_value (λ q. apply_to row q) _ p h;
  or_of = λ row ps p h. of_value (λ q. apply_to row q) _ p h;
  not_of = λ row q p h. of_value (λ q. apply_to row q) _ p h;
}
  where
    of_value : {A B : Type 0} (f : A → B) (a p : A) → value a ≡ value p → f p ≡ f a
    of_value f a p h = cc

abbrev pub part_of : Row → String → String
part_of row name = if name == "p" then row.0 else row.1

true_of : (x : Bool) → of_bool x ≡ Truth.holds → x ≡ true
true_of x h = ground arith

equal_part :
    (row : Row) (c i : ℕ) (v : Value)
    → get_elem? get.column_ids c ≡ some i
    → v.is_null ≡ false
    → compare_texts compare_equal (scalar_text row (bound_column_ref c)) v.to_string ≡ Truth.holds
    → part_of row (get.column_name i) ≡ v.to_string
equal_part row zero i v found given h =
    let q : ◌≡◌ {A = ℕ} 0 i = cc in rw (← q) ((eq_iff _ _).0 (true_of _ h))
equal_part row (suc zero) i v found given h =
    let q : ◌≡◌ {A = ℕ} 1 i = cc in rw (← q) ((eq_iff _ _).0 (true_of _ h))
equal_part row (suc (suc c)) i v found given h = cc

pub partitions : PartitionValues get evaluation
partitions = record {
  part_value = part_of;
  equal_symmetric = λ x y. ap of_bool (eq_symmetric x y);
  equal_text = equal_part;
}
