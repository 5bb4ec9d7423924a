-- ===== src/Pushdown/Leaves.antt =====
-- The conversions of single columns keep the meaning: comparisons, BETWEEN, IS NULL, IN and the
-- functions on text.
use duckdb_paimon.Prelude.{
  ℕ, String, Bool, true, false, Option, none, some, List, ◌∷◌, ◌≡◌, refl, ap, ap₂, ◌∙◌, arith,
  Bool-cases, Option-cases, inl, inr, ◌⊎◌,
}
use duckdb_paimon.Sql.{
  >>=-eq-ok, Duckdb, Value, Expression, Expressions, ExpressionType, LogicalGet, Result, ok, throw,
  nil, cons, bound_column_ref, bound_constant, ◌>>=◌,
}
use duckdb_paimon.Sql.ExpressionType.{
  compare_lessthan, compare_lessthanorequalto, compare_greaterthan, compare_greaterthanorequalto,
}
use duckdb_paimon.TypeUtils.{Literal, convert_literal}
use duckdb_paimon.Paimon.{
  Outcome, value, status, Comparison, less_than, less_or_equal, greater_than, greater_or_equal,
  TextMatch, PredicateBuilder,
}
use duckdb_paimon.Pushdown.Truth.{and_truth, all_truth_two}
use duckdb_paimon.Pushdown.Semantics.{Evaluation, IsStandard, sql_between, sql_function}
use duckdb_paimon.Pushdown.{
  Column, resolve_column, comparison_function, classify_function, text_function, is_string,
  normalize_comparison, prepend, add_item, try_convert_comparison, try_convert_between,
  leaf_comparison, convert_column_comparison, between_bounds, value_or_null, text_predicate,
  convert_text_match, match_literal, try_convert_function,
}

-- Inversion of what the conversions are made of.
pub value_or_null-eq-some {ℓ} :
    {A : Type ℓ} (o : Outcome A) {a : A} → value_or_null o ≡ some a → o ≡ value a
value_or_null-eq-some (value a) h = cc
value_or_null-eq-some (status e) h = cc

prepend-eq-some {ℓ} :
    {A : Type ℓ} (x : A) (o : Option (List A)) {zs : List A}
    → prepend x o ≡ some zs
    → (ys : List A) × (o ≡ some ys) × (zs ≡ x ∷ ys)
prepend-eq-some x none h = cc
prepend-eq-some x (some ys) h = (ys, refl, cc)

pub add_item-eq-some {ℓ} :
    {A : Type ℓ} (all_needed : Bool) (m : Result (Option A)) (later : Result (Option (List A)))
    {zs : List A}
    → (m >>= λ x. add_item all_needed x later) ≡ ok (some zs)
    → ((m ≡ ok none) × (all_needed ≡ false) × (later ≡ ok (some zs)))
      ⊎ ((x : A) × (ys : List A) × (m ≡ ok (some x)) × (later ≡ ok (some ys)) × (zs ≡ x ∷ ys))
add_item-eq-some n (throw e) later h = cc
add_item-eq-some true (ok none) later h = cc
add_item-eq-some false (ok none) later h = inl (refl, refl, h)
add_item-eq-some n (ok (some x)) later h =
    let (o, e, g) = >>=-eq-ok later _ h in
    let (ys, e', g') = prepend-eq-some x o (cc) in inr (x, ys, refl, e ∙ ap ok e', g')

module _ (db : Duckdb) {b : PredicateBuilder} (get : LogicalGet) (s : Evaluation b)
    (std : IsStandard db get s) (row : s.Row) where
  normalized :
      (t : ExpressionType) (f : Comparison) (left right : Expression) (t' : ExpressionType) (c : ℕ)
      (v : Value)
      → comparison_function t ≡ some f
      → normalize_comparison db t left right ≡ some (t', c, v)
      → s.compare t' (s.scalar row (bound_column_ref c)) (s.scalar row (bound_constant v))
        ≡ s.compare t (s.scalar row left) (s.scalar row right)
  unfolding normalize_comparison
  normalized t f (bound_column_ref c) (bound_constant v) t' c' v' e h = cc
  normalized t f (bound_constant v) (bound_column_ref c) t' c' v' e h =
      cc (std.flip t f (s.scalar row (bound_column_ref c)) (s.scalar row (bound_constant v)) e)
  normalized t f _ _ t' c' v' e h = cc

  column_comparison_exact :
      (t : ExpressionType) (c : ℕ) (v : Value) (p : b.Predicate)
      → convert_column_comparison db b get t c v ≡ ok (some p)
      → s.predicate row p
        ≡ s.compare t (s.scalar row (bound_column_ref c)) (s.scalar row (bound_constant v))
  unfolding convert_column_comparison leaf_comparison
  column_comparison_exact t c v p h =
      let (column, found, h') = >>=-eq-ok (resolve_column get c) _ h in
      let (literal, converted, h'') = >>=-eq-ok (convert_literal db v column.paimon_type) _ h' in
      leaf column found literal (comparison_function t) converted refl h''
    where
      leaf :
          (column : Column)
          → resolve_column get c ≡ ok column
          → (literal : Option Literal) (f : Option Comparison)
          → convert_literal db v column.paimon_type ≡ ok literal
          → comparison_function t ≡ f
          → ok (leaf_comparison db b get column literal f) ≡ ok (some p)
          → s.predicate row p
            ≡ s.compare t (s.scalar row (bound_column_ref c)) (s.scalar row (bound_constant v))
      leaf column found none f converted e g = cc
      leaf column found (some l) none converted e g = cc
      leaf column found (some l) (some f) converted e g =
          cc (std.comparison row t f c column v l e found converted)

  pub comparison_exact :
      (t : ExpressionType) (left right : Expression) (p : b.Predicate)
      → try_convert_comparison db b get t left right ≡ ok (some p)
      → s.predicate row p ≡ s.compare t (s.scalar row left) (s.scalar row right)
  unfolding try_convert_comparison
  comparison_exact t left right p h = elim (Option-cases (comparison_function t)) [
    | inl e ↦ absurd (ground (arith))
    | inr (f, e) ↦ elim (Option-cases (normalize_comparison db t left right)) [
      | inl e' ↦ absurd (ground (arith))
      | inr (n, e') ↦
          column_comparison_exact n.0 n.1 n.2 p (ground arith)
          ∙ normalized t f left right n.0 n.1 n.2 e e'
    ]
  ]

  between_inclusive :
      (column : Column) (c : ℕ) (low high : Value) (lower upper : Option Literal) (li ui : Bool)
      (p : b.Predicate)
      → resolve_column get c ≡ ok column
      → convert_literal db low column.paimon_type ≡ ok lower
      → convert_literal db high column.paimon_type ≡ ok upper
      → between_bounds db b get column lower upper li ui ≡ some p
      → s.predicate row p
        ≡ sql_between s row (bound_column_ref c) (bound_constant low) (bound_constant high) li ui
  unfolding between_bounds comparison_function
  between_inclusive column c low high none upper li ui p found e1 e2 h = cc
  between_inclusive column c low high (some l) none li ui p found e1 e2 h = cc
  between_inclusive column c low high (some l) (some u) true true p found e1 e2 h =
      std.and_of row _ p (value_or_null-eq-some _ h)
      ∙ all_truth_two _ _
      ∙ ap₂ and_truth
          (std.comparison row compare_greaterthanorequalto greater_or_equal c column low l refl
            found e1)
          (std.comparison row compare_lessthanorequalto less_or_equal c column high u refl found e2)
  between_inclusive column c low high (some l) (some u) true false p found e1 e2 h =
      std.and_of row _ p (value_or_null-eq-some _ h)
      ∙ all_truth_two _ _
      ∙ ap₂ and_truth
          (std.comparison row compare_greaterthanorequalto greater_or_equal c column low l refl
            found e1)
          (std.comparison row compare_lessthan less_than c column high u refl found e2)
  between_inclusive column c low high (some l) (some u) false true p found e1 e2 h =
      std.and_of row _ p (value_or_null-eq-some _ h)
      ∙ all_truth_two _ _
      ∙ ap₂ and_truth
          (std.comparison row compare_greaterthan greater_than c column low l refl found e1)
          (std.comparison row compare_lessthanorequalto less_or_equal c column high u refl found e2)
  between_inclusive column c low high (some l) (some u) false false p found e1 e2 h =
      std.and_of row _ p (value_or_null-eq-some _ h)
      ∙ all_truth_two _ _
      ∙ ap₂ and_truth
          (std.comparison row compare_greaterthan greater_than c column low l refl found e1)
          (std.comparison row compare_lessthan less_than c column high u refl found e2)

  pub between_exact :
      (input lower upper : Expression) (li ui : Bool) (p : b.Predicate)
      → try_convert_between db b get input lower upper li ui ≡ ok (some p)
      → s.predicate row p ≡ sql_between s row input lower upper li ui
  unfolding try_convert_between
  between_exact (bound_column_ref c) (bound_constant low) (bound_constant high) li ui p h =
      let (column, found, h1) = >>=-eq-ok (resolve_column get c) _ h in
      let (lower, e1, h2) = >>=-eq-ok (convert_literal db low column.paimon_type) _ h1 in
      let (upper, e2, h3) = >>=-eq-ok (convert_literal db high column.paimon_type) _ h2 in
      between_inclusive column c low high lower upper li ui p found e1 e2 (cc)
  between_exact _ _ _ li ui p h = cc

  text_exact :
      (name : String) (f : TextMatch) (children : Expressions) (p : b.Predicate)
      → text_function (classify_function name) ≡ some f
      → convert_text_match db b get f children ≡ ok (some p)
      → s.predicate row p ≡ sql_function s row name children
  unfolding convert_text_match text_predicate match_literal
  text_exact name f nil p e h = cc
  text_exact name f (cons (bound_column_ref c) nil) p e h =
      let (column, found, h1) = >>=-eq-ok (resolve_column get c) _ h in absurd (ground arith)
  text_exact name f (cons (bound_column_ref c) (cons (bound_constant v) rest)) p e h =
      let (column, found, h1) = >>=-eq-ok (resolve_column get c) _ h in
      elim (Bool-cases (is_string column.paimon_type)) [
        | inr no_string ↦ absurd (ground arith)
        | inl string ↦
            let (literal, converted, h2) =
              >>=-eq-ok (convert_literal db v column.paimon_type) _ (rw string at h1) in
            matched column found literal converted (ground arith)
      ]
    where
      matched :
          (column : Column)
          → resolve_column get c ≡ ok column
          → (literal : Option Literal) → convert_literal db v column.paimon_type ≡ ok literal
          → match_literal db b get f column literal ≡ some p
          → s.predicate row p
            ≡ s.apply_text name
                (s.scalar row (bound_column_ref c))
                (s.scalar row (bound_constant v))
      matched column found none converted g = cc
      matched column found (some l) converted g =
          std.text_match row name f c column v l p e found converted (value_or_null-eq-some _ g)
  text_exact name f (cons (bound_column_ref c) (cons _ rest)) p e h =
      let (column, found, h1) = >>=-eq-ok (resolve_column get c) _ h in absurd (ground arith)
  text_exact name f (cons _ rest) p e h = cc

  pub function_exact :
      (name : String) (children : Expressions) (p : b.Predicate)
      → try_convert_function db b get name children ≡ ok (some p)
      → s.predicate row p ≡ sql_function s row name children
  unfolding try_convert_function
  function_exact name children p h = elim (Option-cases (text_function (classify_function name))) [
    | inl e ↦ absurd (ground arith)
    | inr (f, e) ↦ text_exact name f children p e (ground arith)
  ]
