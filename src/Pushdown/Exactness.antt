-- ===== src/Pushdown/Exactness.antt =====
-- Where the conversion leaves nothing out, the predicate means what the filter means.
use duckdb_paimon.Prelude.{
  ℕ, Bool, true, false, Option, none, some, List, [], ◌∷◌, map, ◌≡◌, ◌≢◌, refl, ap, ◌∙◌, arith,
  Bool-cases, inl, inr, ◌||◌,
}
use duckdb_paimon.Sql.{
  >>=-eq-ok, Duckdb, Expression, Expressions, ExpressionType, LogicalGet, Result, ok, throw, nil,
  cons, bound_column_ref, bound_constant, bound_comparison, bound_conjunction, bound_between,
  bound_operator, bound_function, unlisted_class,
}
use duckdb_paimon.Sql.ExpressionType.{compare_not_in, operator_not, conjunction_and, conjunction_or}
use duckdb_paimon.Paimon.{PredicateBuilder}
use duckdb_paimon.Pushdown.Truth.{not_truth, all_truth, any_truth}
use duckdb_paimon.Pushdown.Semantics.{
  Evaluation, IsStandard, sql, sql_operator, sql_all, sql_any, sql_column_operator,
}
use duckdb_paimon.Pushdown.Leaves.{
  add_item-eq-some, value_or_null-eq-some, comparison_exact, between_exact, function_exact,
}
use duckdb_paimon.Pushdown.InLists.{skips_literal, column_operator_exact}
use duckdb_paimon.Pushdown.{
  Column, column_operator, takes_column, resolve_column, try_convert_expression,
  try_convert_operator, try_convert_column_operator, convert_children, combine, negate, is_or,
}

-- The conversion went well and gave the null pointer.
abbrev pub is_null_result {ℓ} : {A : Type ℓ} → Result (Option A) → Bool
is_null_result (ok none) = true
is_null_result (ok (some a)) = false
is_null_result (throw e) = false

is_null_result-ok {ℓ} :
    {A : Type ℓ} (m : Result (Option A)) → m ≡ ok none → is_null_result m ≡ false → ⊥
is_null_result-ok m e h = cc (ap is_null_result e)

none_of_three : (x y z : Bool) → (x || y || z) ≡ false → (x ≡ false) × (y ≡ false) × (z ≡ false)
none_of_three x y z h = ground arith

module _ (db : Duckdb) (b : PredicateBuilder) (get : LogicalGet) where
  -- The child is passed over by the loop of `TryConvertConjunction`.
  abbrev pub is_dropped : Expression → Bool
  is_dropped e = is_null_result (try_convert_expression db b get e)

  pub lossy_not_in : Expressions → Bool
  lossy_not_in (cons (bound_column_ref c) rest) = elim (resolve_column get c) [
    | ok column ↦ skips_literal db column.paimon_type rest
    | throw e ↦ false
  ]
  lossy_not_in _ = false

  unfoldable mutual
    -- The conversion leaves a part of the filter out: a child of a conjunction, or of a NOT IN.
    pub lossy : Expression → Bool
    lossy (bound_conjunction t children) = lossy_children children
    lossy (bound_operator t children) = lossy_operator t children
    lossy _ = false

    pub lossy_operator : ExpressionType → Expressions → Bool
    lossy_operator operator_not (cons child rest) = lossy child
    lossy_operator compare_not_in (cons child rest) = lossy_not_in (cons child rest)
    lossy_operator _ children = false

    pub lossy_children : Expressions → Bool
    lossy_children nil = false
    lossy_children (cons child rest) = is_dropped child || lossy child || lossy_children rest

module _ (db : Duckdb) {b : PredicateBuilder} (get : LogicalGet) (s : Evaluation b)
    (std : IsStandard db get s) (row : s.Row) where
  pub combine_and :
      (o : Option (List b.Predicate)) (p : b.Predicate)
      → combine db b get conjunction_and o ≡ some p
      → (ps : List b.Predicate) × (o ≡ some ps)
        × (s.predicate row p ≡ all_truth (map (s.predicate row) ps))
  unfolding combine
  combine_and none p h = cc
  combine_and (some []) p h = cc
  combine_and (some (q ∷ ps)) p h =
      (q ∷ ps, refl, std.and_of row (q ∷ ps) p (value_or_null-eq-some _ h))

  pub combine_or :
      (o : Option (List b.Predicate)) (p : b.Predicate)
      → combine db b get conjunction_or o ≡ some p
      → (ps : List b.Predicate) × (o ≡ some ps)
        × (s.predicate row p ≡ any_truth (map (s.predicate row) ps))
  unfolding combine
  combine_or none p h = cc
  combine_or (some []) p h = cc
  combine_or (some (q ∷ ps)) p h =
      (q ∷ ps, refl, std.or_of row (q ∷ ps) p (value_or_null-eq-some _ h))

  pub negate_exact :
      (o : Option b.Predicate) (p : b.Predicate)
      → negate db b get o ≡ some p
      → (q : b.Predicate) × (o ≡ some q) × (s.predicate row p ≡ not_truth (s.predicate row q))
  unfolding negate
  negate_exact none p h = cc
  negate_exact (some q) p h = (q, refl, std.not_of row q p (value_or_null-eq-some _ h))

  not_in_kept :
      (t : ExpressionType) (c : ℕ) (rest : Expressions) (column : Column)
      → resolve_column get c ≡ ok column
      → lossy_operator db b get t (cons (bound_column_ref c) rest) ≡ false
      → t ≡ compare_not_in
      → skips_literal db column.paimon_type rest ≡ false
  unfolding lossy lossy_not_in
  not_in_kept compare_not_in c rest column found h e = ground arith
  not_in_kept _ c rest column found h e = cc

  -- The gate of `TryConvertOperator`: a column reference first, and one of four operators.
  pub column_operator-eq-some :
      (t : ExpressionType) (children : Expressions) (p : b.Predicate)
      → try_convert_column_operator db b get t children ≡ ok (some p)
      → (c : ℕ) × (rest : Expressions) × (column : Column) × (children
          ≡ cons (bound_column_ref c) rest)
        × (resolve_column get c ≡ ok column)
        × (column_operator db b get t column rest ≡ ok (some p))
  unfolding try_convert_column_operator
  column_operator-eq-some t nil p h = absurd (ground arith)
  column_operator-eq-some t (cons (bound_column_ref c) rest) p h =
      elim (Bool-cases (takes_column db b get t)) [
        | inr e ↦ absurd (ground arith)
        | inl e ↦
            let (column, found, g) = >>=-eq-ok (resolve_column get c) _ (rw e at h) in
            (c, rest, column, refl, found, g)
      ]
  column_operator-eq-some t (cons _ rest) p h = cc

  column_operator_lossless :
      (t : ExpressionType) (children : Expressions) (p : b.Predicate)
      → try_convert_column_operator db b get t children ≡ ok (some p)
      → lossy_operator db b get t children ≡ false
      → s.predicate row p ≡ sql_column_operator s row t children
  column_operator_lossless t children p h k =
      let (c, rest, column, shape, found, g) = column_operator-eq-some t children p h in
      rw shape (
        column_operator_exact db get s std row c column found t rest p
          (not_in_kept t c rest column found (rw shape at k)) g)

  pub combine_other :
      (t : ExpressionType) (o : Option (List b.Predicate))
      → t ≢ conjunction_and
      → t ≢ conjunction_or
      → combine db b get t o ≡ none
  unfolding combine
  combine_other t none h k = refl
  combine_other t (some []) h k = refl
  combine_other conjunction_and (some (q ∷ ps)) h k = absurd (h refl)
  combine_other conjunction_or (some (q ∷ ps)) h k = absurd (k refl)
  combine_other _ (some (q ∷ ps)) h k = refl

  mutual
    unfolding try_convert_expression lossy sql

    pub exact :
        (e : Expression) (p : b.Predicate)
        → try_convert_expression db b get e ≡ ok (some p)
        → lossy db b get e ≡ false
        → s.predicate row p ≡ sql s row e
    exact (bound_comparison t left right) p h k = comparison_exact db get s std row t left right p h
    exact (bound_conjunction conjunction_and children) p h k =
        let (o, e, g) = >>=-eq-ok (convert_children db b get conjunction_and children) _ h in
        let (ps, e', q) = combine_and o p (cc) in q ∙ exact_all conjunction_and children ps (cc) k
    exact (bound_conjunction conjunction_or children) p h k =
        let (o, e, g) = >>=-eq-ok (convert_children db b get conjunction_or children) _ h in
        let (ps, e', q) = combine_or o p (cc) in q ∙ exact_any conjunction_or children ps (cc) k
    exact (bound_conjunction t children) p h k =
        let (o, e, g) = >>=-eq-ok (convert_children db b get t children) _ h in
        absurd (cc (combine_other t o (λ e. cc) (λ e. cc)))
    exact (bound_between input lower upper li ui) p h k =
        between_exact db get s std row input lower upper li ui p h
    exact (bound_operator t children) p h k = exact_operator t children p h k
    exact (bound_function name children) p h k = function_exact db get s std row name children p h
    exact (bound_column_ref c) p h k = cc
    exact (bound_constant v) p h k = cc
    exact (unlisted_class n) p h k = cc

    exact_operator :
        (t : ExpressionType) (children : Expressions) (p : b.Predicate)
        → try_convert_operator db b get t children ≡ ok (some p)
        → lossy_operator db b get t children ≡ false
        → s.predicate row p ≡ sql_operator s row t children
    exact_operator operator_not nil p h k = cc
    exact_operator operator_not (cons child rest) p h k =
        let (o, e, g) = >>=-eq-ok (try_convert_expression db b get child) _ h in
        let (q, e', n) = negate_exact o p (cc) in n ∙ ap not_truth (exact child q (cc) k)
    exact_operator t children p h k = column_operator_lossless t children p h k

    exact_all :
        (t : ExpressionType) (children : Expressions) (ps : List b.Predicate)
        → convert_children db b get t children ≡ ok (some ps)
        → lossy_children db b get children ≡ false
        → all_truth (map (s.predicate row) ps) ≡ sql_all s row children
    exact_all t nil [] h k = refl
    exact_all t nil (q ∷ ps) h k = cc
    exact_all t (cons child rest) ps h k =
        let (not_dropped, keeps, rest_keeps) = none_of_three _ _ _ k in
        elim (add_item-eq-some (is_or t) (try_convert_expression db b get child)
          (convert_children db b get t rest) h) [
            | inl (dropped, needed, later) ↦ absurd (is_null_result-ok _ dropped not_dropped)
            | inr (q, qs, converted, later, eq) ↦
                cc (eq, exact child q converted keeps, exact_all t rest qs later rest_keeps)
          ]

    exact_any :
        (t : ExpressionType) (children : Expressions) (ps : List b.Predicate)
        → convert_children db b get t children ≡ ok (some ps)
        → lossy_children db b get children ≡ false
        → any_truth (map (s.predicate row) ps) ≡ sql_any s row children
    exact_any t nil [] h k = refl
    exact_any t nil (q ∷ ps) h k = cc
    exact_any t (cons child rest) ps h k =
        let (not_dropped, keeps, rest_keeps) = none_of_three _ _ _ k in
        elim (add_item-eq-some (is_or t) (try_convert_expression db b get child)
          (convert_children db b get t rest) h) [
            | inl (dropped, needed, later) ↦ absurd (is_null_result-ok _ dropped not_dropped)
            | inr (q, qs, converted, later, eq) ↦
                cc (eq, exact child q converted keeps, exact_any t rest qs later rest_keeps)
          ]
