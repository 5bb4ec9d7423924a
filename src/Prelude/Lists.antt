-- ===== src/Prelude/Lists.antt =====
-- Lists measured by native numbers, under the library's names.
use Prim.Native.Nat.{ℕ, zero, suc, ◌+◌}
use mathlib.Core.Path.{◌≡◌, refl, ap₂}
use mathlib.Core.Bool.{Bool, true, false, ◌&&◌, ◌||◌}
use duckdb_paimon.Prelude.Tests.{both_true}
use mathlib.Core.List.{List, [], ◌∷◌, ◌++◌}
use mathlib.Core.Option.{Option, none, some}
use native.Mathlib.Omega.{arith}
use text.Mathlib.Text.{◌==◌}
use Prim.Native.String.{String}

module _ {ℓ} {A : Type ℓ} where
  abbrev pub length : List A → ℕ
  length [] = 0
  length (x ∷ xs) = suc (length xs)

  abbrev pub get_elem? : List A → ℕ → Option A
  get_elem? [] i = none
  get_elem? (x ∷ xs) zero = some x
  get_elem? (x ∷ xs) (suc i) = get_elem? xs i

  abbrev pub take : ℕ → List A → List A
  take zero xs = []
  take (suc n) [] = []
  take (suc n) (x ∷ xs) = x ∷ take n xs

  abbrev pub drop : ℕ → List A → List A
  drop zero xs = xs
  drop (suc n) [] = []
  drop (suc n) (x ∷ xs) = drop n xs

  abbrev pub is_empty : List A → Bool
  is_empty [] = true
  is_empty (x ∷ xs) = false

  pub length-append : (xs ys : List A) → length (xs ++ ys) ≡ length xs + length ys
  length-append [] ys = omega arith
  length-append (x ∷ xs) ys = omega (arith, length-append xs ys)

-- `find` on a vector or a set of strings.
abbrev pub elem : String → List String → Bool
elem k [] = false
elem k (x ∷ xs) = x == k || elem k xs

-- A predicate of every member, which computes to a tuple.
abbrev pub All {ℓ κ} : {A : Type ℓ} → (A → Type κ) → List A → Type κ
All P [] = Unit
All P (x ∷ xs) = P x × All P xs

-- `==` of two vectors, given that of their elements.
module _ {ℓ} {A : Type ℓ} (eq : A → A → Bool) where
  unfoldable pub same_list : List A → List A → Bool
  same_list [] [] = true
  same_list (x ∷ xs) (y ∷ ys) = eq x y && same_list xs ys
  same_list _ _ = false

  pub same_list_refl : ((x : A) → eq x x ≡ true) → (xs : List A) → same_list xs xs ≡ true
  unfolding same_list
  same_list_refl h [] = refl
  same_list_refl h (x ∷ xs) = rw (h x) (same_list_refl h xs)

  pub eq_of_same_list :
      ((x y : A) → eq x y ≡ true → x ≡ y) → (xs ys : List A) → same_list xs ys ≡ true → xs ≡ ys
  unfolding same_list
  eq_of_same_list h [] [] e = refl
  eq_of_same_list h [] (y ∷ ys) e = cc
  eq_of_same_list h (x ∷ xs) [] e = cc
  eq_of_same_list h (x ∷ xs) (y ∷ ys) e =
      let (same, later) = both_true (eq x y) (same_list xs ys) e in
      ap₂ ◌∷◌ (h x y same) (eq_of_same_list h xs ys later)
