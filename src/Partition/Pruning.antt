-- ===== src/Partition/Pruning.antt =====
-- What `PaimonPushdownFilter` pushes down never rejects a row that DuckDB's filters keep.
use duckdb_paimon.Prelude.{
  String, true, Option, none, some, List, [], ◌∷◌, ◌≡◌, refl, sym, ◌∙◌, arith, All, map, inl, inr,
  ◌⊎◌,
}
use duckdb_paimon.Sql.{>>=-eq-ok, Duckdb, Expression, LogicalGet, ok}
use duckdb_paimon.Paimon.{Outcome, value, status, PredicateBuilder}
use duckdb_paimon.Pushdown.{try_convert_expression}
use duckdb_paimon.Pushdown.Truth.{Truth, all_truth}
use duckdb_paimon.Pushdown.Semantics.{Evaluation, IsStandard, sql}
use duckdb_paimon.Pushdown.Soundness.{guarded, conversion_sound}
use duckdb_paimon.Scan.{ScanBindData}
use duckdb_paimon.Partition.{
  PartFilter, extract_all, combine_filters, convert_filters, top_predicate, partition_filters,
  pushdown_filter,
}
use duckdb_paimon.Partition.Extraction.{PartitionValues, MatchesAny, extract_all-MatchesAny}
use duckdb_paimon.Partition.Combination.{combine_filters-MatchesAny}

module _ (db : Duckdb) (b : PredicateBuilder) (get : LogicalGet) (s : Evaluation b)
    (std : IsStandard db get s) (row : s.Row) where
  -- The row passes a predicate, where one was pushed down.
  abbrev pub Accepts : Option b.Predicate → Type 0
  Accepts none = Unit
  Accepts (some p) = s.predicate row p ≡ Truth.holds

  abbrev AllGuarded : List Expression → Type 0
  AllGuarded filters = All (λ e. guarded db b get e ≡ true) filters

  abbrev AllHold : List Expression → Type 0
  AllHold filters = All (λ e. sql s row e ≡ Truth.holds) filters

  converted-hold :
      (filters : List Expression) (ps : List b.Predicate)
      → convert_filters db b get filters ≡ ok ps
      → AllGuarded filters
      → AllHold filters
      → all_truth (map (s.predicate row) ps) ≡ Truth.holds
  unfolding convert_filters
  converted-hold [] ps h g k = let q : ◌≡◌ {A = List b.Predicate} [] ps = cc in rw (← q) refl
  converted-hold (filter ∷ filters) ps h g k =
      let (o, h1, h2) = >>=-eq-ok (try_convert_expression db b get filter) _ h in
      let (later, h3, h4) = >>=-eq-ok (convert_filters db b get filters) _ h2 in
      joined o later h1 (converted-hold filters later h3 g.1 k.1) (cc)
    where
      joined :
          (o : Option b.Predicate) (later : List b.Predicate)
          → try_convert_expression db b get filter ≡ ok o
          → all_truth (map (s.predicate row) later) ≡ Truth.holds
          → (elim o [ none ↦ later | some p ↦ p ∷ later ]) ≡ ps
          → all_truth (map (s.predicate row) ps) ≡ Truth.holds
      joined none later e ih q = rw (← q) ih
      joined (some p) later e ih q =
          rw (← q, conversion_sound db get s std row filter p e g.0 k.0, ih) refl

  top-Accepts :
      (ps : List b.Predicate) (o : Option b.Predicate)
      → top_predicate db b get ps ≡ ok o
      → all_truth (map (s.predicate row) ps) ≡ Truth.holds
      → Accepts o
  unfolding top_predicate
  top-Accepts [] o h k = let q : ◌≡◌ {A = Option b.Predicate} none o = cc in rw (← q) tt
  top-Accepts (p ∷ ps) o h k = built (b.and_of (p ∷ ps)) refl o h
    where
      built :
          (r : Outcome b.Predicate)
          → b.and_of (p ∷ ps) ≡ r
          → (o : Option b.Predicate) → top_predicate db b get (p ∷ ps) ≡ ok o
          → Accepts o
      built (value q) e none g = tt
      built (value q) e (some p') g = std.and_of row (p ∷ ps) p' (ground arith) ∙ k
      built (status err) e o g = absurd (ground arith)

  partition_filters-MatchesAny :
      (parts : PartitionValues get s) (keys : List String) (filters : List Expression)
      (ms : List PartFilter)
      → partition_filters db b get keys filters ≡ ok ms
      → AllHold filters
      → (ms ≡ []) ⊎ MatchesAny (parts.part_value row) ms
  unfolding partition_filters combine_filters
  partition_filters-MatchesAny parts [] filters ms h k = inl (cc)
  partition_filters-MatchesAny parts (key ∷ keys) filters ms h k =
      let (mss, h1, h2) = >>=-eq-ok (extract_all get (key ∷ keys) filters) _ h in
      combined mss (extract_all-MatchesAny get s parts (key ∷ keys) row filters mss h1 k) (cc)
    where
      combined :
          (mss : List (List PartFilter))
          → All (MatchesAny (parts.part_value row)) mss
          → combine_filters mss ≡ ms
          → (ms ≡ []) ⊎ MatchesAny (parts.part_value row) ms
      combined [] all q = inl (sym q)
      combined (first ∷ rest) all q =
          inr (rw (← q) ((combine_filters-MatchesAny (parts.part_value row) first rest).1 all))

  -- If the pushdown succeeds, a row that passes every filter passes the predicate that is pushed
  -- down and lies in a partition that the partition filters select, where there are any. No filter
  -- may have a NOT over a part that the conversion leaves incomplete. DuckDB's expressions and
  -- paimon-cpp's predicates mean what the records IsStandard and PartitionValues say.
  pub pushdown_filter_sound :
      (parts : PartitionValues get s) {Split : Type 0} (bind bind' : ScanBindData b.Predicate Split)
      (filters : List Expression)
      → pushdown_filter db b get bind filters ≡ ok bind'
      → All (λ e. guarded db b get e ≡ true) filters
      → All (λ e. sql s row e ≡ Truth.holds) filters
      → Accepts bind'.predicates
        × ((bind'.part_filters ≡ []) ⊎ MatchesAny (parts.part_value row) bind'.part_filters)
  unfolding pushdown_filter
  pushdown_filter_sound parts bind bind' filters h g k =
      let (ps, h1, h2) = >>=-eq-ok (convert_filters db b get filters) _ h in
      let (o, h3, h4) = >>=-eq-ok (top_predicate db b get ps) _ h2 in
      let (ms, h5, h6) = >>=-eq-ok (partition_filters db b get bind.part_keys filters) _ h4 in
      let q : record bind { predicates = o; part_filters = ms } ≡ bind' = cc in
      rw (← q) (
        top-Accepts ps o h3 (converted-hold filters ps h1 g k),
        partition_filters-MatchesAny parts bind.part_keys filters ms h5 k,
      )
