-- ===== src/Sql.antt =====
-- The DuckDB data that the extension reads: logical types, values, bound expressions and the scan
-- that filters are pushed into, with the exceptions that it throws. DuckDB declares these types;
-- here is what the code under src/paimon_storage/ uses of them.
use duckdb_paimon.Prelude.{ℕ, String, Bool, false, List, ◌≡◌, refl, ◌⊎◌, inl, inr}
use duckdb_paimon.Prelude.Int.{ℤ}

-- The exception classes that the extension throws, each with its message.
pub data Exception : Type 0 where
  io_exception invalid_input catalog_exception permission_exception not_implemented serialization
        internal_exception transaction_exception :
      String → Exception

pub data Result {ℓ} (A : Type ℓ) : Type ℓ where
  ok : A → Result A
  throw : Exception → Result A

infixl 5 ◌>>=◌ ◌>>◌
abbrev pub ◌>>=◌ {ℓ κ} : {A : Type ℓ} {B : Type κ} → Result A → (A → Result B) → Result B
ok a >>= f = f a
throw e >>= f = throw e

abbrev pub ◌>>◌ {ℓ} : {B : Type ℓ} → Result (Unit {0}) → Result B → Result B
m >> k = m >>= λ _. k

-- `if (bad) throw e;`
abbrev pub throw_if : Bool → Exception → Result (Unit {0})
throw_if Bool.true e = throw e
throw_if Bool.false e = ok tt

pub data LogicalTypeId : Type 0 where
  boolean tinyint smallint integer bigint float double varchar blob timestamp timestamp_tz
        timestamp_ms timestamp_sec timestamp_ns decimal date invalid :
      LogicalTypeId
  -- Any type that the extension does not name.
  unlisted : ℕ → LogicalTypeId

pub data PhysicalType : Type 0 where
  int16 int32 int64 int128 : PhysicalType
  unlisted_physical : ℕ → PhysicalType

-- `width` and `scale` are those of `DecimalType::GetWidth` and `GetScale`.
pub record LogicalType : Type 0 where
  pub id : LogicalTypeId
  pub width : ℕ
  pub scale : ℕ
  pub internal_type : PhysicalType

-- A 128-bit integer by its halves: `upper` is signed, `lower` is not.
pub record Hugeint : Type 0 where
  pub upper : ℤ
  pub lower : ℕ

-- A value is what its accessors answer: `IsNull`, `type`, `ToString`, and `GetValue` at each type
-- that the extension asks for. Floating-point values are kept as bit patterns.
pub record Value : Type 0 where
  pub is_null : Bool
  pub type : LogicalType
  pub to_string : String
  pub get_bool : Bool
  pub get_int8 : ℤ
  pub get_int16 : ℤ
  pub get_int32 : ℤ
  pub get_int64 : ℤ
  pub get_float : ℕ
  pub get_double : ℕ
  pub get_timestamp : ℤ
  pub get_hugeint : Hugeint

pub data ExpressionType : Type 0 where
  compare_equal compare_notequal compare_lessthan compare_lessthanorequalto compare_greaterthan
        compare_greaterthanorequalto compare_in compare_not_in operator_is_null operator_is_not_null
        operator_not conjunction_and conjunction_or :
      ExpressionType
  unlisted_expression : ℕ → ExpressionType

-- The expression classes of a bound filter.
mutual
  pub data Expression : Type 0 where
    bound_column_ref : ℕ → Expression
    bound_constant : Value → Expression
    bound_comparison : ExpressionType → Expression → Expression → Expression
    bound_conjunction : ExpressionType → Expressions → Expression
    -- input, lower, upper, lower_inclusive, upper_inclusive
    bound_between : Expression → Expression → Expression → Bool → Bool → Expression
    bound_operator : ExpressionType → Expressions → Expression
    bound_function : String → Expressions → Expression
    unlisted_class : ℕ → Expression

  pub data Expressions : Type 0 where
    nil : Expressions
    cons : Expression → Expressions → Expressions

-- `GetColumnIds`, `GetColumnType` and `GetColumnName` of a `LogicalGet`; a column id is its
-- primary index.
pub record LogicalGet : Type 0 where
  pub column_ids : List ℕ
  pub column_type : ℕ → LogicalType
  pub column_name : ℕ → String

-- The functions of DuckDB that the extension calls on this data.
pub record Duckdb : Type 0 where
  -- `Hugeint::Convert`
  pub hugeint_convert : ℤ → Hugeint
  -- `FlipComparisonExpression`
  pub flip_comparison : ExpressionType → ExpressionType

-- A chain that ends well has an inner result that ended well.
pub >>=-eq-ok {ℓ κ} :
    {A : Type ℓ} {B : Type κ} (m : Result A) (f : A → Result B) {r : B}
    → (m >>= f) ≡ ok r
    → (a : A) × (m ≡ ok a) × (f a ≡ ok r)
>>=-eq-ok (ok a) f h = (a, refl, h)
>>=-eq-ok (throw e) f h = cc

-- A chain that begins with a check and ends well has passed the check.
pub throw_if-passes {ℓ} :
    {B : Type ℓ} (bad : Bool) (e : Exception) (k : Result B) {r : B}
    → (throw_if bad e >> k) ≡ ok r
    → (bad ≡ false) × (k ≡ ok r)
throw_if-passes Bool.true e k h = cc
throw_if-passes Bool.false e k h = (refl, h)

pub Result-cases {ℓ} :
    {A : Type ℓ} (m : Result A) → ((a : A) × (m ≡ ok a)) ⊎ ((e : Exception) × (m ≡ throw e))
Result-cases (ok a) = inl (a, refl)
Result-cases (throw e) = inr (e, refl)
