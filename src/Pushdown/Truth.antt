-- ===== src/Pushdown/Truth.antt =====
-- The three truth values of SQL, and conjunction, disjunction and negation on them.
use duckdb_paimon.Prelude.{◌≡◌, refl, Bool, true, false, List, [], ◌∷◌, arith}

pub data Truth : Type 0 where
  unknown fails holds : Truth

abbrev pub of_bool : Bool → Truth
of_bool true = holds
of_bool false = fails

abbrev pub not_truth : Truth → Truth
not_truth unknown = unknown
not_truth fails = holds
not_truth holds = fails

abbrev pub and_truth : Truth → Truth → Truth
and_truth fails y = fails
and_truth holds y = y
and_truth unknown fails = fails
and_truth unknown unknown = unknown
and_truth unknown holds = unknown

abbrev pub or_truth : Truth → Truth → Truth
or_truth holds y = holds
or_truth fails y = y
or_truth unknown holds = holds
or_truth unknown unknown = unknown
or_truth unknown fails = unknown

abbrev pub all_truth : List Truth → Truth
all_truth [] = holds
all_truth (x ∷ xs) = and_truth x (all_truth xs)

abbrev pub any_truth : List Truth → Truth
any_truth [] = fails
any_truth (x ∷ xs) = or_truth x (any_truth xs)

pub and_truth-holds : (x y : Truth) → and_truth x y ≡ holds → (x ≡ holds) × (y ≡ holds)
and_truth-holds x y h = ground arith

-- A disjunction is as true as a stronger one.
pub or_truth_mono :
    (x y x' y' : Truth)
    → (x ≡ holds → x' ≡ holds)
    → (y ≡ holds → y' ≡ holds)
    → or_truth x y ≡ holds
    → or_truth x' y' ≡ holds
or_truth_mono holds y x' y' f g h = ground (arith, f refl)
or_truth_mono fails y holds y' f g h = refl
or_truth_mono fails y fails y' f g h = g h
or_truth_mono fails y unknown y' f g h = ground (arith, g h)
or_truth_mono unknown holds x' y' f g h = ground (arith, g refl)
or_truth_mono unknown unknown x' y' f g h = ground arith
or_truth_mono unknown fails x' y' f g h = ground arith

pub all_truth_two : (x y : Truth) → all_truth (x ∷ y ∷ []) ≡ and_truth x y
all_truth_two x y = ground arith

pub or_truth-fails : (x y : Truth) → or_truth x y ≡ fails → (x ≡ fails) × (y ≡ fails)
or_truth-fails x y h = ground arith

pub not_truth-holds : (x : Truth) → not_truth x ≡ holds → x ≡ fails
not_truth-holds x h = ground arith
