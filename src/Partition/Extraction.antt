-- ===== src/Partition/Extraction.antt =====
-- What is extracted from a filter holds in every row that passes it.
use duckdb_paimon.Prelude.{
  ℕ, String, Bool, true, false, Option, none, some, List, [], ◌∷◌, ◌≡◌, refl, sym, ap, ◌∙◌, arith,
  ◌==◌, ◌||◌, eq_iff, All, assign, get_elem?, elem, Bool-cases, Option-cases, inl, inr, ◌⊎◌,
  is_empty, if◌then◌else◌,
}
use duckdb_paimon.Sql.{
  >>=-eq-ok, Value, Expression, Expressions, LogicalGet, ok, nil, cons, bound_column_ref,
  bound_constant, bound_comparison, bound_conjunction,
}
use duckdb_paimon.Sql.ExpressionType.{compare_equal, conjunction_and, conjunction_or}
use duckdb_paimon.Paimon.{PredicateBuilder}
use duckdb_paimon.Pushdown.Truth.{Truth, or_truth, and_truth-holds}
use duckdb_paimon.Pushdown.Semantics.{Evaluation, sql, sql_all, sql_any}
use duckdb_paimon.Partition.{
  PartFilter, column_and_constant, extract_value, extract_equality, try_extract, try_extract_each,
  when_matched, extract_branches, try_extract_filters, extract_all,
}

-- The partition of a row, as the text that paimon-cpp compares with a partition filter's values.
pub record PartitionValues {b : PredicateBuilder} (get : LogicalGet) (s : Evaluation b)
    : Type 0 where
  pub part_value : s.Row → String → String
  pub equal_symmetric : (x y : s.Scalar) → s.compare compare_equal x y ≡ s.compare compare_equal y x
  -- A column that equals a constant has the constant's text.
  pub equal_text :
      (row : s.Row) (c col_idx : ℕ) (v : Value)
      → get_elem? get.column_ids c ≡ some col_idx
      → v.is_null ≡ false
      → s.compare compare_equal
          (s.scalar row (bound_column_ref c))
          (s.scalar row (bound_constant v))
        ≡ Truth.holds
      → part_value row (get.column_name col_idx) ≡ v.to_string

-- A partition with these values passes the filter.
abbrev pub Matches : (String → String) → PartFilter → Type 0
Matches part m = All (λ e. part e.0 ≡ e.1) m

-- One of the alternatives passes.
abbrev pub MatchesAny : (String → String) → List PartFilter → Type 0
MatchesAny part [] = ⊥
MatchesAny part (m ∷ ms) = Matches part m ⊎ MatchesAny part ms

pub assign-Matches :
    (part : String → String) (k v : String) (m : PartFilter)
    → Matches part m
    → part k ≡ v
    → Matches part (assign k v m)
unfolding assign
assign-Matches part k v [] h e = (e, tt)
assign-Matches part k v ((j, w) ∷ m) h e = elim (Bool-cases (j == k)) [
  | inl same ↦ rw same (ap part ((eq_iff j k).0 same) ∙ e, h.1)
  | inr other ↦ rw other (h.0, assign-Matches part k v m h.1 e)
]

or_either {ℓ} :
    {P Q : Type ℓ} (x y : Truth)
    → or_truth x y ≡ Truth.holds
    → (x ≡ Truth.holds → P)
    → (y ≡ Truth.holds → Q)
    → P ⊎ Q
or_either Truth.holds y h f g = inl (f refl)
or_either Truth.fails y h f g = inr (g h)
or_either Truth.unknown Truth.holds h f g = inr (g refl)
or_either Truth.unknown Truth.unknown h f g = cc
or_either Truth.unknown Truth.fails h f g = cc

module _ {b : PredicateBuilder} (get : LogicalGet) (s : Evaluation b)
    (parts : PartitionValues get s) (part_keys : List String) (row : s.Row) where
  extract_value-Matches :
      (c col_idx : ℕ) (v : Value) (m : PartFilter)
      → get_elem? get.column_ids c ≡ some col_idx
      → s.compare compare_equal
          (s.scalar row (bound_column_ref c))
          (s.scalar row (bound_constant v))
        ≡ Truth.holds
      → Matches (parts.part_value row) m
      → Matches (parts.part_value row) (extract_value get part_keys col_idx v m).1
  unfolding extract_value
  extract_value-Matches c col_idx v m found e h =
      elim (Bool-cases (elem (get.column_name col_idx) part_keys)) [
        | inr other ↦ rw other h
        | inl key ↦ elim (Bool-cases v.is_null) [
          | inl null ↦ rw (key, null) h
          | inr value ↦
              rw (key, value)
                (assign-Matches (parts.part_value row) _ _ m h
                  (parts.equal_text row c col_idx v found value e))
        ]
      ]

  extract_equality-Matches :
      (left right : Expression) (m : PartFilter) (r : Bool × PartFilter)
      → extract_equality get part_keys (column_and_constant left right) m ≡ ok r
      → s.compare compare_equal (s.scalar row left) (s.scalar row right) ≡ Truth.holds
      → Matches (parts.part_value row) m
      → Matches (parts.part_value row) r.1
  unfolding extract_equality column_and_constant
  extract_equality-Matches (bound_column_ref c) (bound_constant v) m r h e k =
      elim (Option-cases (get_elem? get.column_ids c)) [
        | inl missing ↦ absurd (ground arith)
        | inr (col_idx, found) ↦
            let q : extract_value get part_keys col_idx v m ≡ r = ground arith in
            rw (← q) (extract_value-Matches c col_idx v m found e k)
      ]
  extract_equality-Matches (bound_constant v) (bound_column_ref c) m r h e k =
      elim (Option-cases (get_elem? get.column_ids c)) [
        | inl missing ↦ absurd (ground arith)
        | inr (col_idx, found) ↦
            let q : extract_value get part_keys col_idx v m ≡ r = ground arith in
            rw (← q) (extract_value-Matches c col_idx v m found (parts.equal_symmetric _ _ ∙ e) k)
      ]
  extract_equality-Matches _ _ m r h e k =
      let q : ◌≡◌ {A = Bool × PartFilter} (false, m) r = cc in rw (← q) k

  mutual
    unfolding try_extract sql

    try_extract-holds :
        (e : Expression) (m : PartFilter) (r : Bool × PartFilter)
        → try_extract get part_keys e m ≡ ok r
        → sql s row e ≡ Truth.holds
        → Matches (parts.part_value row) m
        → Matches (parts.part_value row) r.1
    try_extract-holds (bound_comparison compare_equal left right) m r h e k =
        extract_equality-Matches left right m r h e k
    try_extract-holds (bound_conjunction conjunction_and children) m r h e k =
        try_extract_each-holds children m r h e k
    try_extract-holds _ m r h e k =
        let q : ◌≡◌ {A = Bool × PartFilter} (false, m) r = cc in rw (← q) k

    try_extract_each-holds :
        (children : Expressions) (m : PartFilter) (r : Bool × PartFilter)
        → try_extract_each get part_keys children m ≡ ok r
        → sql_all s row children ≡ Truth.holds
        → Matches (parts.part_value row) m
        → Matches (parts.part_value row) r.1
    try_extract_each-holds nil m r h e k =
        let q : ◌≡◌ {A = Bool × PartFilter} (false, m) r = cc in rw (← q) k
    try_extract_each-holds (cons child rest) m r h e k =
        let (first, found, h') = >>=-eq-ok (try_extract get part_keys child m) _ h in
        let (later, found', h'') = >>=-eq-ok (try_extract_each get part_keys rest first.1) _ h' in
        let (e1, e2) = and_truth-holds _ _ e in
        let q : ◌≡◌ {A = Bool × PartFilter} (first.0 || later.0, later.1) r = cc in
        rw (← q) (
          try_extract_each-holds rest first.1 later found' e2
            (try_extract-holds child m first found e1 k))

  -- A row that passes the filter lies in a partition with the values that were extracted.
  pub try_extract-Matches :
      (e : Expression) (m : PartFilter) (r : Bool × PartFilter)
      → try_extract get part_keys e m ≡ ok r
      → sql s row e ≡ Truth.holds
      → Matches (parts.part_value row) m
      → Matches (parts.part_value row) r.1
  try_extract-Matches e m r h w k = try_extract-holds e m r h w k

  branches-MatchesAny :
      (children : Expressions) (ms : List PartFilter)
      → extract_branches get part_keys children ≡ ok (some ms)
      → sql_any s row children ≡ Truth.holds
      → MatchesAny (parts.part_value row) ms
  unfolding extract_branches sql
  branches-MatchesAny nil ms h e = cc
  branches-MatchesAny (cons child rest) ms h e =
      let (found, h1, h2) = >>=-eq-ok (try_extract get part_keys child []) _ h in
      elim (Bool-cases found.0) [
        | inr missed ↦ absurd (ground arith)
        | inl matched ↦
            let (o, h3, h4) =
              >>=-eq-ok (extract_branches get part_keys rest) _ (rw matched at h2) in
            elim (Option-cases o) [
              | inl stopped ↦ absurd (ground arith)
              | inr (later, got) ↦
                  let q : ◌≡◌ {A = List PartFilter} (found.1 ∷ later) ms = ground arith in
                  rw (← q) (
                    or_either (sql s row child) (sql_any s row rest) e
                      (λ yes_child. try_extract-Matches child [] found h1 yes_child tt)
                      (λ yes_rest. branches-MatchesAny rest later (h3 ∙ ap ok got) yes_rest))
            ]
      ]

  matched-MatchesAny :
      (r : Bool × PartFilter)
      → Matches (parts.part_value row) r.1
      → (when_matched r ≡ []) ⊎ MatchesAny (parts.part_value row) (when_matched r)
  matched-MatchesAny (true, m) h = inr (inl h)
  matched-MatchesAny (false, m) h = inl refl

  -- A row that passes the filter matches one of the alternatives, if there are any.
  pub filters-MatchesAny :
      (e : Expression) (ms : List PartFilter)
      → try_extract_filters get part_keys e ≡ ok ms
      → sql s row e ≡ Truth.holds
      → (ms ≡ []) ⊎ MatchesAny (parts.part_value row) ms
  unfolding try_extract_filters sql
  filters-MatchesAny (bound_conjunction conjunction_or children) ms h e =
      let (o, h1, h2) = >>=-eq-ok (extract_branches get part_keys children) _ h in
      elim (Option-cases o) [
        | inl stopped ↦ inl (ground arith)
        | inr (found, got) ↦
            let q : found ≡ ms = ground arith in
            inr (rw (← q) (branches-MatchesAny children found (h1 ∙ ap ok got) e))
      ]
  filters-MatchesAny (bound_conjunction conjunction_and children) ms h e =
      let (r, h1, h2) =
        >>=-eq-ok (try_extract get part_keys (bound_conjunction conjunction_and children) []) _ h in
      let q : when_matched r ≡ ms = cc in
      rw (← q) (matched-MatchesAny r (try_extract-Matches _ [] r h1 e tt))
  filters-MatchesAny (bound_comparison t left right) ms h e =
      let (r, h1, h2) =
        >>=-eq-ok (try_extract get part_keys (bound_comparison t left right) []) _ h in
      let q : when_matched r ≡ ms = cc in
      rw (← q) (matched-MatchesAny r (try_extract-Matches _ [] r h1 e tt))
  filters-MatchesAny _ ms h e = inl (cc)

  pub extract_all-MatchesAny :
      (filters : List Expression) (mss : List (List PartFilter))
      → extract_all get part_keys filters ≡ ok mss
      → All (λ e. sql s row e ≡ Truth.holds) filters
      → All (MatchesAny (parts.part_value row)) mss
  unfolding extract_all
  extract_all-MatchesAny [] mss h e =
      let q : ◌≡◌ {A = List (List PartFilter)} [] mss = cc in rw (← q) tt
  extract_all-MatchesAny (filter ∷ filters) mss h e =
      let (found, h1, h2) = >>=-eq-ok (try_extract_filters get part_keys filter) _ h in
      let (later, h3, h4) = >>=-eq-ok (extract_all get part_keys filters) _ h2 in
      kept found later (filters-MatchesAny filter found h1 e.0)
        (extract_all-MatchesAny filters later h3 e.1) (cc)
    where
      kept :
          (found : List PartFilter) (later : List (List PartFilter))
          → ((found ≡ []) ⊎ MatchesAny (parts.part_value row) found)
          → All (MatchesAny (parts.part_value row)) later
          → (if is_empty found then later else found ∷ later) ≡ mss
          → All (MatchesAny (parts.part_value row)) mss
      kept [] later c rest q = rw (← q) rest
      kept (m ∷ ms) later (inl c) rest q = cc
      kept (m ∷ ms) later (inr c) rest q = rw (← q) (c, rest)

pair_of : (r : Bool × PartFilter) → r.0 ≡ false → r ≡ (false, r.1)
pair_of r h = ground arith

-- A filter from which nothing is extracted leaves the map as it was.
module _ (get : LogicalGet) (part_keys : List String) where
  extract_value_unmatched :
      (c : ℕ) (v : Value) (m m' : PartFilter)
      → extract_value get part_keys c v m ≡ (false, m')
      → m' ≡ m
  unfolding extract_value
  extract_value_unmatched c v m m' h = ground arith

  equality_unmatched :
      (o : Option (ℕ × Value)) (m m' : PartFilter)
      → extract_equality get part_keys o m ≡ ok (false, m')
      → m' ≡ m
  unfolding extract_equality
  equality_unmatched none m m' h = cc
  equality_unmatched (some (c, v)) m m' h = elim (Option-cases (get_elem? get.column_ids c)) [
    | inl missing ↦ absurd (ground arith)
    | inr (col_idx, found) ↦ extract_value_unmatched col_idx v m m' (ground arith)
  ]

  mutual
    unfolding try_extract

    unmatched :
        (e : Expression) (m m' : PartFilter)
        → try_extract get part_keys e m ≡ ok (false, m')
        → m' ≡ m
    unmatched (bound_comparison compare_equal left right) m m' h = equality_unmatched _ m m' h
    unmatched (bound_conjunction conjunction_and children) m m' h = unmatched_each children m m' h
    unmatched _ m m' h = cc

    unmatched_each :
        (children : Expressions) (m m' : PartFilter)
        → try_extract_each get part_keys children m ≡ ok (false, m')
        → m' ≡ m
    unmatched_each nil m m' h = cc
    unmatched_each (cons child rest) m m' h =
        let (first, found, h') = >>=-eq-ok (try_extract get part_keys child m) _ h in
        let (later, found', h'') = >>=-eq-ok (try_extract_each get part_keys rest first.1) _ h' in
        let no_first : first.0 ≡ false = ground arith in
        let no_later : later.0 ≡ false = ground arith in
        let q : later.1 ≡ m' = ground arith in
        sym q
        ∙ unmatched_each rest first.1 later.1 (found' ∙ ap ok (pair_of later no_later))
        ∙ unmatched child m first.1 (found ∙ ap ok (pair_of first no_first))
