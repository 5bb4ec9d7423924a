-- ===== src/Pushdown/Soundness.antt =====
-- A pushed predicate is implied by its filter, unless a NOT stands over an incomplete conversion.
use duckdb_paimon.Prelude.{
  Bool, true, false, not, some, List, [], ◌∷◌, map, ◌≡◌, refl, ap, ◌∙◌, arith, inl, inr, ◌&&◌,
}
use duckdb_paimon.Sql.{
  >>=-eq-ok, Duckdb, Expression, Expressions, ExpressionType, LogicalGet, ok, nil, cons,
  bound_column_ref, bound_constant, bound_comparison, bound_conjunction, bound_between,
  bound_operator, bound_function, unlisted_class,
}
use duckdb_paimon.Sql.ExpressionType.{operator_not, conjunction_and, conjunction_or}
use duckdb_paimon.Paimon.{PredicateBuilder}
use duckdb_paimon.Pushdown.Truth.{
  Truth, not_truth, all_truth, any_truth, and_truth-holds, or_truth_mono,
}
use duckdb_paimon.Pushdown.Semantics.{Evaluation, IsStandard, sql, sql_operator, sql_all, sql_any}
use duckdb_paimon.Pushdown.Leaves.{
  add_item-eq-some, comparison_exact, between_exact, function_exact,
}
use duckdb_paimon.Pushdown.InLists.{column_operator_sound}
use duckdb_paimon.Pushdown.Exactness.{
  lossy, exact, combine_and, combine_or, combine_other, negate_exact, column_operator-eq-some,
}
use duckdb_paimon.Pushdown.{try_convert_expression, try_convert_operator, convert_children, is_or}

module _ (db : Duckdb) (b : PredicateBuilder) (get : LogicalGet) where
  unfoldable mutual
    -- No NOT stands over a part that the conversion leaves incomplete.
    pub guarded : Expression → Bool
    guarded (bound_conjunction t children) = guarded_children children
    guarded (bound_operator t children) = guarded_operator t children
    guarded _ = true

    pub guarded_operator : ExpressionType → Expressions → Bool
    guarded_operator operator_not (cons child rest) = not (lossy db b get child)
    guarded_operator _ children = true

    pub guarded_children : Expressions → Bool
    guarded_children nil = true
    guarded_children (cons child rest) = guarded child && guarded_children rest

both : (x y : Bool) → (x && y) ≡ true → (x ≡ true) × (y ≡ true)
both x y h = ground arith

not-true : (x : Bool) → not x ≡ true → x ≡ false
not-true x h = ground arith

module _ (db : Duckdb) {b : PredicateBuilder} (get : LogicalGet) (s : Evaluation b)
    (std : IsStandard db get s) (row : s.Row) where
  mutual
    unfolding try_convert_expression guarded sql

    sound :
        (e : Expression) (p : b.Predicate)
        → try_convert_expression db b get e ≡ ok (some p)
        → guarded db b get e ≡ true
        → sql s row e ≡ Truth.holds
        → s.predicate row p ≡ Truth.holds
    sound (bound_comparison t left right) p h k w =
        comparison_exact db get s std row t left right p h ∙ w
    sound (bound_conjunction conjunction_and children) p h k w =
        let (o, e, g) = >>=-eq-ok (convert_children db b get conjunction_and children) _ h in
        let (ps, e', q) = combine_and db get s std row o p (cc) in
        q ∙ sound_all conjunction_and children ps (cc) k w
    sound (bound_conjunction conjunction_or children) p h k w =
        let (o, e, g) = >>=-eq-ok (convert_children db b get conjunction_or children) _ h in
        let (ps, e', q) = combine_or db get s std row o p (cc) in q ∙ sound_any children ps (cc) k w
    sound (bound_conjunction t children) p h k w =
        let (o, e, g) = >>=-eq-ok (convert_children db b get t children) _ h in
        absurd (cc (combine_other db get s std row t o (λ e. cc) (λ e. cc)))
    sound (bound_between input lower upper li ui) p h k w =
        between_exact db get s std row input lower upper li ui p h ∙ w
    sound (bound_operator t children) p h k w = sound_operator t children p h k w
    sound (bound_function name children) p h k w =
        function_exact db get s std row name children p h ∙ w
    sound (bound_column_ref c) p h k w = cc
    sound (bound_constant v) p h k w = cc
    sound (unlisted_class n) p h k w = cc

    sound_operator :
        (t : ExpressionType) (children : Expressions) (p : b.Predicate)
        → try_convert_operator db b get t children ≡ ok (some p)
        → guarded_operator db b get t children ≡ true
        → sql_operator s row t children ≡ Truth.holds
        → s.predicate row p ≡ Truth.holds
    sound_operator operator_not nil p h k w = cc
    sound_operator operator_not (cons child rest) p h k w =
        let (o, e, g) = >>=-eq-ok (try_convert_expression db b get child) _ h in
        let (q, e', n) = negate_exact db get s std row o p (cc) in
        n ∙ ap not_truth (exact db get s std row child q (cc) (not-true _ k)) ∙ w
    sound_operator t children p h k w =
        let (c, rest, column, shape, found, g) =
          column_operator-eq-some db get s std row t children p h in
        column_operator_sound db get s std row c column found t rest p g (rw shape at w)

    sound_all :
        (t : ExpressionType) (children : Expressions) (ps : List b.Predicate)
        → convert_children db b get t children ≡ ok (some ps)
        → guarded_children db b get children ≡ true
        → sql_all s row children ≡ Truth.holds
        → all_truth (map (s.predicate row) ps) ≡ Truth.holds
    sound_all t nil [] h k w = refl
    sound_all t nil (q ∷ ps) h k w = cc
    sound_all t (cons child rest) ps h k w =
        let (kept, rest_kept) = both _ _ k in
        let (first, later_true) = and_truth-holds _ _ w in
        elim (add_item-eq-some (is_or t) (try_convert_expression db b get child)
          (convert_children db b get t rest) h) [
            | inl (dropped, needed, later) ↦ sound_all t rest ps later rest_kept later_true
            | inr (q, qs, converted, later, eq) ↦ cc (
              eq,
              sound child q converted kept first,
              sound_all t rest qs later rest_kept later_true,
            )
          ]

    sound_any :
        (children : Expressions) (ps : List b.Predicate)
        → convert_children db b get conjunction_or children ≡ ok (some ps)
        → guarded_children db b get children ≡ true
        → sql_any s row children ≡ Truth.holds
        → any_truth (map (s.predicate row) ps) ≡ Truth.holds
    sound_any nil [] h k w = cc
    sound_any nil (q ∷ ps) h k w = cc
    sound_any (cons child rest) ps h k w =
        let (kept, rest_kept) = both _ _ k in
        elim (add_item-eq-some true (try_convert_expression db b get child)
          (convert_children db b get conjunction_or rest) h) [
            | inl (dropped, needed, later) ↦ cc
            | inr (q, qs, converted, later, eq) ↦ rw eq (
                or_truth_mono (sql s row child) (sql_any s row rest) _ _
                  (λ e. sound child q converted kept e) (λ e. sound_any rest qs later rest_kept e)
                  w)
          ]

  -- A pushed predicate keeps every row that the filter keeps, where no NOT stands over a part that
  -- the conversion leaves incomplete (an AND with a child that cannot be converted, or a NOT IN
  -- with such a member). Expressions and predicates mean what the record IsStandard says.
  pub conversion_sound :
      (e : Expression) (p : b.Predicate)
      → try_convert_expression db b get e ≡ ok (some p)
      → guarded db b get e ≡ true
      → sql s row e ≡ Truth.holds
      → s.predicate row p ≡ Truth.holds
  conversion_sound e p h k w = sound e p h k w
