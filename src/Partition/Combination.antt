-- ===== src/Partition/Combination.antt =====
-- The cross-product of the alternatives means their conjunction, for any partition.
use duckdb_paimon.Prelude.{
  String, Option, none, some, List, [], ◌∷◌, ◌++◌, ◌≡◌, sym, ap, ◌∙◌, arith, ◌==◌, eq_iff, All,
  lookup, emplace, Bool-cases, Option-cases, inl, inr, ◌⊎◌, ◌↔◌,
}
use duckdb_paimon.Partition.{
  PartFilter, merge_part_filter, keep_merged, merge_with_each, cross_product, combine_from,
  combine_filters,
}
use duckdb_paimon.Partition.Extraction.{Matches, MatchesAny}

module _ (part : String → String) where
  Matches-lookup :
      (k v : String) (m : PartFilter) → Matches part m → lookup k m ≡ some v → part k ≡ v
  unfolding lookup
  Matches-lookup k v [] h e = cc
  Matches-lookup k v ((j, w) ∷ m) h e = elim (Bool-cases (j == k)) [
    | inl same ↦ ap part (sym ((eq_iff j k).0 same)) ∙ h.0 ∙ ground arith
    | inr other ↦ Matches-lookup k v m h.1 (ground arith)
  ]

  emplace-Matches :
      (k v : String) (m : PartFilter)
      → lookup k m ≡ none
      → Matches part (emplace k v m) ↔ (Matches part m × (part k ≡ v))
  unfolding lookup emplace
  emplace-Matches k v [] e = (λ h. (tt, h.0), λ h. (h.1, tt))
  emplace-Matches k v ((j, w) ∷ m) e = elim (Bool-cases (j == k)) [
    | inl same ↦ absurd (ground arith)
    | inr other ↦
        let ih = emplace-Matches k v m (ground arith) in
        rw other (λ h. ((h.0, (ih.0 h.1).0), (ih.0 h.1).1), λ h. (h.0.0, ih.1 (h.0.1, h.1)))
  ]

  -- A merge succeeds and passes where both maps pass, and passes nowhere else.
  abbrev Merges : PartFilter → PartFilter → Option PartFilter → Type 0
  Merges a c none = ¬ (Matches part a × Matches part c)
  Merges a c (some m) = Matches part m ↔ (Matches part a × Matches part c)

  merge-Merges : (a c : PartFilter) → Merges a c (merge_part_filter a c)
  unfolding merge_part_filter
  merge-Merges a [] = (λ h. (h, tt), λ h. h.0)
  merge-Merges a ((k, v) ∷ c) = elim (Option-cases (lookup k a)) [
    | inl free ↦
        rw (free, merge_part_filter)
          (placed (merge_part_filter (emplace k v a) c) (emplace-Matches k v a free)
            (merge-Merges (emplace k v a) c))
    | inr (w, taken) ↦
        rw (taken, merge_part_filter)
          (elim (Bool-cases (w == v)) [
            | inl same ↦ rw same (
                repeated (merge_part_filter a c)
                  (λ h. Matches-lookup k w a h taken ∙ (eq_iff w v).0 same) (merge-Merges a c))
            | inr differ ↦
                rw differ
                  (λ h. cc (differ, (eq_iff w v).1 (sym (Matches-lookup k w a h.0 taken) ∙ h.1.0)))
          ])
  ]
    where
      placed :
          (o : Option PartFilter)
          → Matches part (emplace k v a) ↔ (Matches part a × (part k ≡ v))
          → Merges (emplace k v a) c o
          → Merges a ((k, v) ∷ c) o
      placed none e h = λ p. h (e.1 (p.0, p.1.0), p.1.1)
      placed (some m) e h = (
        λ q. let (x, y) = h.0 q in ((e.0 x).0, ((e.0 x).1, y)),
        λ p. h.1 (e.1 (p.0, p.1.0), p.1.1),
      )

      repeated :
          (o : Option PartFilter)
          → (Matches part a → part k ≡ v)
          → Merges a c o
          → Merges a ((k, v) ∷ c) o
      repeated none e h = λ p. h (p.0, p.1.1)
      repeated (some m) e h = (λ q. let (x, y) = h.0 q in (x, (e x, y)), λ p. h.1 (p.0, p.1.1))

  append-MatchesAny :
      (xs ys : List PartFilter)
      → MatchesAny part (xs ++ ys) ↔ (MatchesAny part xs ⊎ MatchesAny part ys)
  append-MatchesAny [] ys = (λ h. inr h, elim [ inl h ↦ absurd h | inr h ↦ h ])
  append-MatchesAny (x ∷ xs) ys = (
    elim [
      | inl h ↦ inl (inl h)
      | inr h ↦ elim ((append-MatchesAny xs ys).0 h) [ inl k ↦ inl (inr k) | inr k ↦ inr k ]
    ],
    elim [
      | inl h ↦ elim h [ inl k ↦ inl k | inr k ↦ inr ((append-MatchesAny xs ys).1 (inl k)) ]
      | inr h ↦ inr ((append-MatchesAny xs ys).1 (inr h))
    ],
  )

  merge_with_each-MatchesAny :
      (a : PartFilter) (cs : List PartFilter)
      → MatchesAny part (merge_with_each a cs) ↔ (Matches part a × MatchesAny part cs)
  unfolding merge_with_each
  merge_with_each-MatchesAny a [] = (λ h. absurd h, λ h. h.1)
  merge_with_each-MatchesAny a (c ∷ cs) =
      step (merge_part_filter a c) (merge-Merges a c) (merge_with_each-MatchesAny a cs)
    where
      step :
          (o : Option PartFilter)
          → Merges a c o
          → MatchesAny part (merge_with_each a cs) ↔ (Matches part a × MatchesAny part cs)
          → MatchesAny part (keep_merged o (merge_with_each a cs))
            ↔ (Matches part a × (Matches part c ⊎ MatchesAny part cs))
      step none m ih = (
        λ h. ((ih.0 h).0, inr (ih.0 h).1),
        λ h. elim h.1 [ inl k ↦ absurd (m (h.0, k)) | inr k ↦ ih.1 (h.0, k) ],
      )
      step (some q) m ih = (
        elim [ inl h ↦ ((m.0 h).0, inl (m.0 h).1) | inr h ↦ ((ih.0 h).0, inr (ih.0 h).1) ],
        λ h. elim h.1 [ inl k ↦ inl (m.1 (h.0, k)) | inr k ↦ inr (ih.1 (h.0, k)) ],
      )

  cross_product-MatchesAny :
      (xs ys : List PartFilter)
      → MatchesAny part (cross_product xs ys) ↔ (MatchesAny part xs × MatchesAny part ys)
  unfolding cross_product
  cross_product-MatchesAny [] ys = (λ h. absurd h, λ h. h.0)
  cross_product-MatchesAny (x ∷ xs) ys =
      let here = merge_with_each-MatchesAny x ys in
      let there = cross_product-MatchesAny xs ys in
      let joined = append-MatchesAny (merge_with_each x ys) (cross_product xs ys) in
      (
        λ h. elim (joined.0 h) [
          | inl k ↦ (inl (here.0 k).0, (here.0 k).1)
          | inr k ↦ (inr (there.0 k).0, (there.0 k).1)
        ],
        λ h. elim h.0 [
          | inl k ↦ joined.1 (inl (here.1 (k, h.1)))
          | inr k ↦ joined.1 (inr (there.1 (k, h.1)))
        ],
      )

  combine_from-MatchesAny :
      (xs : List PartFilter) (rest : List (List PartFilter))
      → MatchesAny part (combine_from xs rest) ↔ (MatchesAny part xs × All (MatchesAny part) rest)
  unfolding combine_from
  combine_from-MatchesAny xs [] = (λ h. (h, tt), λ h. h.0)
  combine_from-MatchesAny xs (ys ∷ rest) =
      let product = cross_product-MatchesAny xs ys in
      let later = combine_from-MatchesAny (cross_product xs ys) rest in
      (
        λ h. ((product.0 (later.0 h).0).0, ((product.0 (later.0 h).0).1, (later.0 h).1)),
        λ h. later.1 (product.1 (h.0, h.1.0), h.1.1),
      )

  -- The combined alternatives pass exactly the partitions that pass one alternative of each filter;
  -- at least one filter gave alternatives.
  pub combine_filters-MatchesAny :
      (first : List PartFilter) (rest : List (List PartFilter))
      → MatchesAny part (combine_filters (first ∷ rest)) ↔ All (MatchesAny part) (first ∷ rest)
  unfolding combine_filters
  combine_filters-MatchesAny first rest = combine_from-MatchesAny first rest
