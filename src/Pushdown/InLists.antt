-- ===== src/Pushdown/InLists.antt =====
-- The conversions of IS NULL, IS NOT NULL, IN and NOT IN keep the meaning. A NOT IN may leave out
-- children, and is then weaker than the filter.
use duckdb_paimon.Prelude.{
  ℕ, Bool, true, false, not, Option, none, some, List, [], ◌∷◌, map, ◌≡◌, refl, ◌∙◌, arith,
  if◌then◌else◌, inl, inr, ◌&&◌,
}
use duckdb_paimon.Sql.{
  >>=-eq-ok, Duckdb, Value, Expressions, ExpressionType, LogicalGet, ok, nil, cons,
  bound_column_ref, bound_constant,
}
use duckdb_paimon.Sql.ExpressionType.{
  compare_equal, compare_in, compare_not_in, operator_is_null, operator_is_not_null,
}
use duckdb_paimon.TypeUtils.{FieldType, Literal, convert_literal}
use duckdb_paimon.Paimon.{equal, PredicateBuilder}
use duckdb_paimon.Pushdown.Truth.{Truth, not_truth, any_truth, or_truth-fails, not_truth-holds}
use duckdb_paimon.Pushdown.Semantics.{Evaluation, IsStandard, sql_column_operator, equal_to_each}
use duckdb_paimon.Pushdown.Leaves.{add_item-eq-some}
use duckdb_paimon.Pushdown.{
  Column, resolve_column, comparison_function, collect_literals, in_predicate, column_operator,
}

-- A NOT IN with a child that the conversion leaves out.
pub skips_literal : Duckdb → FieldType → Expressions → Bool
skips_literal db type nil = false
skips_literal db type (cons (bound_constant v) rest) = elim (convert_literal db v type) [
  | ok none ↦ true
  | _ ↦ skips_literal db type rest
]
skips_literal db type (cons _ rest) = true

module _ (db : Duckdb) {b : PredicateBuilder} (get : LogicalGet) (s : Evaluation b)
    (std : IsStandard db get s) (row : s.Row) (c : ℕ) (column : Column)
    (found : resolve_column get c ≡ ok column) where
  abbrev equals : Literal → Truth
  equals l =
      s.predicate row (b.comparison equal column.field_index column.field_name column.paimon_type l)

  equals-compare :
      (v : Value) (l : Literal)
      → convert_literal db v column.paimon_type ≡ ok (some l)
      → equals l
        ≡ s.compare compare_equal
            (s.scalar row (bound_column_ref c))
            (s.scalar row (bound_constant v))
  unfolding comparison_function
  equals-compare v l e = std.comparison row compare_equal equal c column v l refl found e

  -- Where no child is left out, the literals stand for the children one by one.
  literals_exact :
      (n : Bool) (rest : Expressions) (ls : List Literal)
      → collect_literals db n column.paimon_type rest ≡ ok (some ls)
      → (n && skips_literal db column.paimon_type rest) ≡ false
      → any_truth (map equals ls) ≡ equal_to_each s row (s.scalar row (bound_column_ref c)) rest
  unfolding collect_literals skips_literal
  literals_exact n nil [] h e = refl
  literals_exact n nil (l ∷ ls) h e = cc
  literals_exact n (cons (bound_constant v) rest) ls h e =
      elim (add_item-eq-some (not n) (convert_literal db v column.paimon_type)
        (collect_literals db n column.paimon_type rest) h) [
          | inl (dropped, needed, later) ↦ absurd (ground arith)
          | inr (l, ls', converted, later, eq) ↦
              cc (eq, equals-compare v l converted, literals_exact n rest ls' later (ground arith))
        ]
  literals_exact true (cons _ rest) ls h e = cc
  literals_exact false (cons _ rest) ls h e = cc

  -- With children left out, the literals still all differ from what the children all differ from.
  literals_sound :
      (rest : Expressions) (ls : List Literal)
      → collect_literals db true column.paimon_type rest ≡ ok (some ls)
      → equal_to_each s row (s.scalar row (bound_column_ref c)) rest ≡ Truth.fails
      → any_truth (map equals ls) ≡ Truth.fails
  unfolding collect_literals
  literals_sound nil [] h e = refl
  literals_sound nil (l ∷ ls) h e = cc
  literals_sound (cons (bound_constant v) rest) ls h e =
      elim (add_item-eq-some false (convert_literal db v column.paimon_type)
        (collect_literals db true column.paimon_type rest) h) [
          | inl (dropped, needed, later) ↦ literals_sound rest ls later (or_truth-fails _ _ e).1
          | inr (l, ls', converted, later, eq) ↦
              let parts : (s.compare compare_equal (s.scalar row (bound_column_ref c))
                      (s.scalar row (bound_constant v))
                    ≡ Truth.fails)
                  × (equal_to_each s row (s.scalar row (bound_column_ref c)) rest ≡ Truth.fails) =
                or_truth-fails _ _ e in
              cc (eq, equals-compare v l converted, literals_sound rest ls' later parts.1)
        ]
  literals_sound (cons (bound_column_ref _) rest) ls h e =
      literals_sound rest ls h (or_truth-fails _ _ e).1
  literals_sound (cons _ rest) ls h e = literals_sound rest ls h (or_truth-fails _ _ e).1

  in_exact :
      (n : Bool) (rest : Expressions) (p : b.Predicate) (literals : Option (List Literal))
      → collect_literals db n column.paimon_type rest ≡ ok literals
      → (n && skips_literal db column.paimon_type rest) ≡ false
      → in_predicate db b get n column literals ≡ some p
      → s.predicate row p ≡ (
          if n
          then not_truth (equal_to_each s row (s.scalar row (bound_column_ref c)) rest)
          else equal_to_each s row (s.scalar row (bound_column_ref c)) rest)
  unfolding in_predicate
  in_exact n rest p none h e g = cc
  in_exact n rest p (some []) h e g = cc
  in_exact true rest p (some (l ∷ ls)) h e g = cc (
    literals_exact true rest (l ∷ ls) h e,
    std.not_in_list row column.field_index column.field_name column.paimon_type (l ∷ ls),
  )
  in_exact false rest p (some (l ∷ ls)) h e g = cc (
    literals_exact false rest (l ∷ ls) h e,
    std.in_list row column.field_index column.field_name column.paimon_type (l ∷ ls),
  )

  not_in_sound :
      (rest : Expressions) (p : b.Predicate) (literals : Option (List Literal))
      → collect_literals db true column.paimon_type rest ≡ ok literals
      → in_predicate db b get true column literals ≡ some p
      → not_truth (equal_to_each s row (s.scalar row (bound_column_ref c)) rest) ≡ Truth.holds
      → s.predicate row p ≡ Truth.holds
  unfolding in_predicate
  not_in_sound rest p none h g e = cc
  not_in_sound rest p (some []) h g e = cc
  not_in_sound rest p (some (l ∷ ls)) h g e = cc (
    literals_sound rest (l ∷ ls) h (not_truth-holds _ e),
    std.not_in_list row column.field_index column.field_name column.paimon_type (l ∷ ls),
  )

  pub column_operator_exact :
      (t : ExpressionType) (rest : Expressions) (p : b.Predicate)
      → (t ≡ compare_not_in → skips_literal db column.paimon_type rest ≡ false)
      → column_operator db b get t column rest ≡ ok (some p)
      → s.predicate row p ≡ sql_column_operator s row t (cons (bound_column_ref c) rest)
  unfolding column_operator
  column_operator_exact operator_is_null rest p e h = cc (std.is_null row c column found)
  column_operator_exact operator_is_not_null rest p e h = cc (std.is_not_null row c column found)
  column_operator_exact compare_in rest p e h =
      let (literals, got, g) = >>=-eq-ok (collect_literals db false column.paimon_type rest) _ h in
      in_exact false rest p literals got refl (cc)
  column_operator_exact compare_not_in rest p e h =
      let (literals, got, g) = >>=-eq-ok (collect_literals db true column.paimon_type rest) _ h in
      in_exact true rest p literals got (e refl) (cc)
  column_operator_exact _ rest p e h = cc

  pub column_operator_sound :
      (t : ExpressionType) (rest : Expressions) (p : b.Predicate)
      → column_operator db b get t column rest ≡ ok (some p)
      → sql_column_operator s row t (cons (bound_column_ref c) rest) ≡ Truth.holds
      → s.predicate row p ≡ Truth.holds
  unfolding column_operator
  column_operator_sound operator_is_null rest p h e = cc (std.is_null row c column found)
  column_operator_sound operator_is_not_null rest p h e = cc (std.is_not_null row c column found)
  column_operator_sound compare_in rest p h e =
      let (literals, got, g) = >>=-eq-ok (collect_literals db false column.paimon_type rest) _ h in
      in_exact false rest p literals got refl (cc) ∙ e
  column_operator_sound compare_not_in rest p h e =
      let (literals, got, g) = >>=-eq-ok (collect_literals db true column.paimon_type rest) _ h in
      not_in_sound rest p literals got (cc) e
  column_operator_sound _ rest p h e = cc
