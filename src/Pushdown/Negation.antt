-- ===== src/Pushdown/Negation.antt =====
-- What a NOT does over an AND that was converted in part: the pushed predicate is stronger than the
-- filter, and drops rows that the filter keeps.
use duckdb_paimon.Prelude.{false, none, some, List, [], ◌∷◌, map, ◌≡◌, refl, inl, inr}
use duckdb_paimon.Sql.{
  >>=-eq-ok, Duckdb, Expression, LogicalGet, ok, nil, cons, bound_conjunction, bound_operator,
}
use duckdb_paimon.Sql.ExpressionType.{operator_not, conjunction_and}
use duckdb_paimon.Paimon.{PredicateBuilder}
use duckdb_paimon.Pushdown.Truth.{Truth, all_truth}
use duckdb_paimon.Pushdown.Semantics.{Evaluation, IsStandard, sql}
use duckdb_paimon.Pushdown.Leaves.{add_item-eq-some}
use duckdb_paimon.Pushdown.Exactness.{lossy, exact, combine_and, negate_exact}
use duckdb_paimon.Pushdown.{try_convert_expression, convert_children}

module _ (db : Duckdb) {b : PredicateBuilder} (get : LogicalGet) (s : Evaluation b)
    (std : IsStandard db get s) (row : s.Row) where
  only_first :
      (a u : Expression) (ps : List b.Predicate)
      → convert_children db b get conjunction_and (cons a (cons u nil)) ≡ ok (some ps)
      → try_convert_expression db b get u ≡ ok none
      → lossy db b get a ≡ false
      → sql s row a ≡ Truth.holds
      → all_truth (map (s.predicate row) ps) ≡ Truth.holds
  unfolding try_convert_expression
  only_first a u ps h unconverted whole yes_a =
      elim (add_item-eq-some false (try_convert_expression db b get a)
        (convert_children db b get conjunction_and (cons u nil)) h) [
          | inl (dropped, _, later) ↦ none_left ps later
          | inr (q, qs, converted, later, eq) ↦
              cc (eq, exact db get s std row a q converted whole, none_left qs later)
        ]
    where
      none_left :
          (qs : List b.Predicate)
          → convert_children db b get conjunction_and (cons u nil) ≡ ok (some qs)
          → all_truth (map (s.predicate row) qs) ≡ Truth.holds
      none_left [] g = refl
      none_left (q ∷ qs) g =
          elim (add_item-eq-some false (try_convert_expression db b get u)
            (convert_children db b get conjunction_and nil) g) [
              | inl (dropped, _, later) ↦ cc
              | inr (_, _, converted, later, eq) ↦ cc
            ]

  -- For every filter NOT (a AND u) with `a` converted whole and `u` not converted, a row where `a`
  -- holds and `u` fails passes the filter, and the predicate that is pushed down rejects it.
  pub not_over_and_unsound :
      (a u : Expression) (p : b.Predicate)
      → try_convert_expression db b get (
          bound_operator operator_not
            (cons (bound_conjunction conjunction_and (cons a (cons u nil))) nil))
        ≡ ok (some p)
      → try_convert_expression db b get u ≡ ok none
      → lossy db b get a ≡ false
      → sql s row a ≡ Truth.holds
      → sql s row u ≡ Truth.fails
      → (sql s row (
            bound_operator operator_not
              (cons (bound_conjunction conjunction_and (cons a (cons u nil))) nil))
          ≡ Truth.holds)
        × (s.predicate row p ≡ Truth.fails)
  unfolding try_convert_expression sql
  not_over_and_unsound a u p h unconverted whole yes_a no_u = (
    rw (yes_a, no_u),
    (let (o, e, g) = >>=-eq-ok (try_convert_expression db b get conjunction) _ h in
        let (q, e', n) = negate_exact db get s std row o p (cc) in
        let (o', e'', g') =
          >>=-eq-ok (convert_children db b get conjunction_and (cons a (cons u nil))) _ e in
        let (ps, e3, all) = combine_and db get s std row o' q (cc) in
        let passes : all_truth (map (s.predicate row) ps) ≡ Truth.holds =
          only_first a u ps (cc) unconverted whole yes_a in
        cc),
  )
    where
      conjunction : Expression
      conjunction = bound_conjunction conjunction_and (cons a (cons u nil))
