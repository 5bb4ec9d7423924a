-- ===== src/DistributedScan/SplitIds.antt =====
-- `IsCanonicalSplitId`, and the ids that `std::to_string` gives to the planned splits. An id is the
-- list of its characters' codes.
use duckdb_paimon.Prelude.{
  ℕ, zero, suc, ◌+◌, ◌-◌, ◌*◌, ◌/◌, ◌%◌, ◌<◌, ◌≡◌, refl, sym, ap, ◌∙◌, Bool, true, false, not, ◌&&◌,
  [], ◌∷◌, arith, ltb, leb, eqb, if◌then◌else◌, Bool-cases, inl, inr,
}
use duckdb_paimon.TablePath.{Text}

abbrev pub is_digit : ℕ → Bool
is_digit c = leb b'0' c && leb c b'9'

unfoldable pub all_digits : Text → Bool
all_digits [] = true
all_digits (c ∷ cs) = is_digit c && all_digits cs

-- Not empty, no leading zero but in "0", and digits only.
unfoldable pub is_canonical_split_id : Text → Bool
is_canonical_split_id [] = false
is_canonical_split_id (c ∷ []) = all_digits (c ∷ [])
is_canonical_split_id (c ∷ d ∷ cs) = not (eqb c b'0') && all_digits (c ∷ d ∷ cs)

-- `std::to_string` of an unsigned number, digit by digit from the end; the fuel exceeds the number.
decimal_onto : ℕ → ℕ → Text → Text
decimal_onto zero n acc = acc
decimal_onto (suc fuel) n acc =
    let more = decimal_onto fuel (n / 10) ((b'0' + n % 10) ∷ acc) in
    if ltb n 10 then (b'0' + n) ∷ acc else more

unfoldable pub to_string : ℕ → Text
unfolding decimal_onto
to_string n = decimal_onto (suc n) n []

read_onto : ℕ → Text → ℕ
read_onto a [] = a
read_onto a (c ∷ cs) = read_onto (a * 10 + (c - b'0')) cs

read-decimal :
    (fuel n : ℕ) (acc : Text) → n < fuel → read_onto 0 (decimal_onto fuel n acc) ≡ read_onto n acc
unfolding decimal_onto read_onto
read-decimal zero n acc h = elim h [ ]
read-decimal (suc fuel) n acc h = elim (Bool-cases (ltb n 10)) [
  | inl small ↦ rw small (ap (λ k. read_onto k acc) (omega arith))
  | inr large ↦ rw large (
      read-decimal fuel (n / 10) ((b'0' + n % 10) ∷ acc) (ground arith)
      ∙ ap (λ k. read_onto k acc) (omega arith))
]

-- Different numbers have different decimals.
pub to_string_injective : (i j : ℕ) → to_string i ≡ to_string j → i ≡ j
unfolding to_string read_onto
to_string_injective i j h =
    sym (read-decimal (suc i) i [] (omega arith))
    ∙ ap (read_onto 0) h
    ∙ read-decimal (suc j) j [] (omega arith)

long_canonical :
    (c : ℕ) (cs : Text)
    → (c < b'0' + 10)
    → b'0' < c
    → all_digits cs ≡ true
    → is_canonical_split_id (c ∷ cs) ≡ true
unfolding is_canonical_split_id all_digits
long_canonical c [] h k e = ground arith
long_canonical c (d ∷ cs) h k e = ground arith

decimal-canonical :
    (fuel n : ℕ) (acc : Text)
    → n < fuel
    → 0 < n
    → all_digits acc ≡ true
    → is_canonical_split_id (decimal_onto fuel n acc) ≡ true
unfolding decimal_onto all_digits
decimal-canonical zero n acc h k e = elim h [ ]
decimal-canonical (suc fuel) n acc h k e = elim (Bool-cases (ltb n 10)) [
  | inl small ↦ rw small (long_canonical (b'0' + n) acc (ground arith) (ground arith) e)
  | inr large ↦ rw large (
      decimal-canonical fuel (n / 10) ((b'0' + n % 10) ∷ acc) (ground arith) (ground arith)
        (ground arith))
]

-- Every planned split has a canonical id.
pub to_string_canonical : (n : ℕ) → is_canonical_split_id (to_string n) ≡ true
unfolding to_string
to_string_canonical zero = unfold is_canonical_split_id all_digits in refl
to_string_canonical (suc n) =
    decimal-canonical (suc (suc n)) (suc n) [] (omega arith) (omega arith)
      (unfold all_digits in refl)
