-- ===== src/Paimon.antt =====
-- What the extension calls of paimon-cpp, a library that is not in this repository: its status
-- type and its predicate builder. The operations are fields of records that the model takes as
-- parameters.
use duckdb_paimon.Prelude.{ℕ, String, Bool, List}
use duckdb_paimon.TypeUtils.{FieldType, Literal}

-- A failed `paimon::Status`: its text, `IsExist()` and `IsNotExist()`.
pub record Status : Type 0 where
  pub text : String
  pub is_exist : Bool
  pub is_not_exist : Bool

-- `paimon::Result<T>`; `status` is a result that is not `ok()`.
pub data Outcome {ℓ} (A : Type ℓ) : Type ℓ where
  value : A → Outcome A
  status : Status → Outcome A

-- The builder's comparisons of a field with a literal.
pub data Comparison : Type 0 where
  equal not_equal less_than less_or_equal greater_than greater_or_equal : Comparison

-- The builder's functions on text.
pub data TextMatch : Type 0 where
  starts_with ends_with contains like : TextMatch

-- paimon::PredicateBuilder. A field is given by its index, its name and its type.
pub record PredicateBuilder : Type 1 where
  pub Predicate : Type 0
  pub comparison : Comparison → ℕ → String → FieldType → Literal → Predicate
  pub is_null : ℕ → String → FieldType → Predicate
  pub is_not_null : ℕ → String → FieldType → Predicate
  pub in_list : ℕ → String → FieldType → List Literal → Predicate
  pub not_in_list : ℕ → String → FieldType → List Literal → Predicate
  pub text_match : TextMatch → ℕ → String → FieldType → Literal → Outcome Predicate
  pub and_of : List Predicate → Outcome Predicate
  pub or_of : List Predicate → Outcome Predicate
  pub not_of : Predicate → Outcome Predicate
