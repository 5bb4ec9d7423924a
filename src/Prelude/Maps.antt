-- ===== src/Prelude/Maps.antt =====
-- `std::map` and `unordered_map` with text keys, as association lists without an order. The code
-- under src/ that iterates over such a map does so where the order does not matter; where it
-- does, the model says so.
use Prim.Native.String.{String}
use mathlib.Core.Path.{◌≡◌, refl}
use mathlib.Core.List.{List, [], ◌∷◌}
use mathlib.Core.Option.{Option, none, some}
use native.Mathlib.Omega.{arith}
use text.Mathlib.Text.{◌==◌}
use text.Mathlib.TextEquality.{eq_iff}
use mathlib.Core.Logic.{◌≢◌, ◌⊎◌, inl, inr}
use duckdb_paimon.Prelude.Tests.{if◌then◌else◌, is_some, Bool-cases, Option-cases}

abbrev pub Map {ℓ} : Type ℓ → Type ℓ
Map V = List (String × V)

module _ {ℓ} {V : Type ℓ} where
  -- `find`
  unfoldable pub lookup : String → Map V → Option V
  lookup k [] = none
  lookup k ((j, v) ∷ m) = if j == k then some v else lookup k m

  -- `m[k] = v`
  unfoldable pub assign : String → V → Map V → Map V
  assign k v [] = (k, v) ∷ []
  assign k v ((j, w) ∷ m) = if j == k then (j, v) ∷ m else (j, w) ∷ assign k v m

  -- `insert` and `emplace`, which do not overwrite.
  unfoldable pub emplace : String → V → Map V → Map V
  emplace k v [] = (k, v) ∷ []
  emplace k v ((j, w) ∷ m) = if j == k then (j, w) ∷ m else (j, w) ∷ emplace k v m

  -- `erase`
  unfoldable pub erase : String → Map V → Map V
  erase k [] = []
  erase k ((j, w) ∷ m) = let rest = erase k m in if j == k then rest else (j, w) ∷ rest

  pub lookup-assign :
      (k j : String) (v : V) (m : Map V)
      → lookup j (assign k v m) ≡ (if k == j then some v else lookup j m)
  unfolding lookup assign
  lookup-assign k j v [] = refl
  lookup-assign k j v ((i, w) ∷ m) =
      ground (arith, eq_iff k j, eq_iff i k, eq_iff i j, lookup-assign k j v m)

  pub lookup-emplace :
      (k j : String) (v : V) (m : Map V)
      → lookup j (emplace k v m)
        ≡ (if k == j then (if is_some (lookup k m) then lookup k m else some v) else lookup j m)
  unfolding lookup emplace
  lookup-emplace k j v [] = refl
  lookup-emplace k j v ((i, w) ∷ m) =
      ground (arith, eq_iff k j, eq_iff i k, eq_iff i j, lookup-emplace k j v m)

  pub lookup-erase :
      (k j : String) (m : Map V) → lookup j (erase k m) ≡ (if k == j then none else lookup j m)
  unfolding lookup erase
  lookup-erase k j [] = ground arith
  lookup-erase k j ((i, w) ∷ m) =
      ground (arith, eq_iff k j, eq_iff i k, eq_iff i j, lookup-erase k j m)

  -- Where an entry that is found after a change comes from.
  pub lookup-emplace-eq-some :
      (k j : String) (v w : V) (m : Map V)
      → lookup j (emplace k v m) ≡ some w
      → (lookup j m ≡ some w) ⊎ ((k ≡ j) × (v ≡ w))
  lookup-emplace-eq-some k j v w m h = elim (Bool-cases (k == j)) [
    | inr other ↦ inl (ground (arith, lookup-emplace k j v m))
    | inl same ↦ elim (Option-cases (lookup j m)) [
      | inl missing ↦ inr (
        ground (arith, lookup-emplace k j v m, eq_iff k j),
        ground (arith, lookup-emplace k j v m, eq_iff k j),
      )
      | inr (u, there) ↦ inl (ground (arith, lookup-emplace k j v m, eq_iff k j))
    ]
  ]

  pub lookup-erase-eq-some :
      (k j : String) (w : V) (m : Map V)
      → lookup j (erase k m) ≡ some w
      → (lookup j m ≡ some w) × (k ≢ j)
  lookup-erase-eq-some k j w m h = elim (Bool-cases (k == j)) [
    | inr other ↦ (ground (arith, lookup-erase k j m), ground (arith, eq_iff k j))
    | inl same ↦ absurd (ground (arith, lookup-erase k j m))
  ]

pub ruleset map_laws = (lookup-assign, lookup-emplace, lookup-erase)
