-- ===== src/DistributedScan/Matching.antt =====
-- What a packed split shares with its envelope, and split ids that do not clash.
use duckdb_paimon.Prelude.{
  ℕ, ◌<◌, ◌≡◌, refl, ap₂, Bool, true, false, ◌||◌, none, some, List, [], ◌∷◌, map, arith, eqb,
  if◌then◌else◌, Bool-cases, inl, inr,
}
use duckdb_paimon.Sql.{ok}
use duckdb_paimon.TablePath.{Text, text_eq}
use duckdb_paimon.DistributedScan.SplitIds.{to_string, to_string_injective}
use duckdb_paimon.DistributedScan.Estimates.{index_maximum}
use duckdb_paimon.Wire.{Wire}
use duckdb_paimon.DistributedScan.Envelope.{SplitEnvelope, serialize_split_envelope}
use duckdb_paimon.DistributedScan.Planning.{
  DistributedScanSplit, optional_index, has_id, same_index,
}

pub text_eq_refl : (xs : Text) → text_eq xs xs ≡ true
text_eq_refl [] = refl
text_eq_refl (x ∷ xs) = ground (arith, text_eq_refl xs)

pub text_eq→eq : (xs ys : Text) → text_eq xs ys ≡ true → xs ≡ ys
text_eq→eq [] [] h = refl
text_eq→eq [] (y ∷ ys) h = cc
text_eq→eq (x ∷ xs) [] h = cc
text_eq→eq (x ∷ xs) (y ∷ ys) h = elim (Bool-cases (eqb x y)) [
  | inl same ↦ ap₂ ◌∷◌ (ground arith) (text_eq→eq xs ys (ground arith))
  | inr other ↦ absurd (ground arith)
]

pub if_same {ℓ} : {A : Type ℓ} (b : Bool) (x : A) → (if b then x else x) ≡ x
if_same true x = refl
if_same false x = refl

abbrev pub has_index : ℕ → List ℕ → Bool
has_index i [] = false
has_index i (j ∷ js) = eqb j i || has_index i js

-- No index comes twice, and none that was used before.
abbrev pub Fresh : List ℕ → List ℕ → Type 0
Fresh used [] = Unit
Fresh used (i ∷ is) = (has_index i used ≡ false) × Fresh (i ∷ used) is

text_eq-to_string : (i j : ℕ) → eqb j i ≡ false → text_eq (to_string j) (to_string i) ≡ false
text_eq-to_string i j h = elim (Bool-cases (text_eq (to_string j) (to_string i))) [
  | inr e ↦ e
  | inl e ↦ absurd (ground (arith, to_string_injective j i (text_eq→eq _ _ e)))
]

pub fresh_id :
    (i : ℕ) (used : List ℕ)
    → has_index i used ≡ false
    → has_id (to_string i) (map to_string used) ≡ false
unfolding has_id
fresh_id i [] h = refl
fresh_id i (j ∷ used) h = ground (arith, text_eq-to_string i j, fresh_id i used)

pub optional_index-lt :
    (b : Bool) (n : ℕ) → n < index_maximum → optional_index b n ≡ ok (if b then some n else none)
unfolding optional_index
optional_index-lt true n h = ground arith
optional_index-lt false n h = refl

pub same_index_self :
    (b : Bool) (n : ℕ) → same_index b (if b then n else 0) (if b then some n else none) ≡ true
unfolding same_index
same_index_self true n = ground arith
same_index_self false n = refl

abbrev pub packed : Wire → SplitEnvelope → DistributedScanSplit
packed codec e = record {
  split_id = e.split_id;
  payload = serialize_split_envelope codec e;
  estimated_cardinality =
      if e.has_estimated_cardinality then some e.estimated_cardinality else none;
  estimated_bytes = if e.has_estimated_bytes then some e.estimated_bytes else none;
}
