-- ===== src/Prelude/Int.antt =====
-- Signed machine integers as ℤ over the native numbers, with C++ division and remainder.
use Prim.Native.Nat.{ℕ, suc, ◌+◌, ◌-◌, ◌*◌, ◌/◌, ◌%◌, ◌≤◌}
use mathlib.Core.Path.{◌≡◌}
use mathlib.Core.Bool.{Bool}
use native.Mathlib.Omega.{arith}
use duckdb_paimon.Prelude.Tests.{ltb, leb, eqb, if◌then◌else◌}

-- `negsuc n` is -(n + 1).
pub data ℤ : Type 0 where
  pos : ℕ → ℤ
  negsuc : ℕ → ℤ

abbrev pub pos_part : ℤ → ℕ
pos_part (pos n) = n
pos_part (negsuc n) = 0

abbrev pub neg_part : ℤ → ℕ
neg_part (pos n) = 0
neg_part (negsuc n) = suc n

-- a - b, as an integer.
abbrev pub sub_ℕ : ℕ → ℕ → ℤ
sub_ℕ a b = if leb b a then pos (a - b) else negsuc (b - a - 1)

infixl 65 ◌+ℤ◌ ◌-ℤ◌
infixl 70 ◌*ℤ◌
infix 50 ◌≤ℤ◌
unfoldable pub ◌+ℤ◌ : ℤ → ℤ → ℤ
a +ℤ b = sub_ℕ (pos_part a + pos_part b) (neg_part a + neg_part b)

unfoldable pub ◌-ℤ◌ : ℤ → ℤ → ℤ
a -ℤ b = sub_ℕ (pos_part a + neg_part b) (neg_part a + pos_part b)

-- A product with a constant that is not negative.
unfoldable pub ◌*ℤ◌ : ℤ → ℕ → ℤ
a *ℤ k = sub_ℕ (pos_part a * k) (neg_part a * k)

abbrev pub ◌≤ℤ◌ : ℤ → ℤ → Type 0
a ≤ℤ b = pos_part a + neg_part b ≤ pos_part b + neg_part a

abbrev pub ltb_ℤ : ℤ → ℤ → Bool
ltb_ℤ a b = ltb (pos_part a + neg_part b) (pos_part b + neg_part a)

abbrev pub eqb_ℤ : ℤ → ℤ → Bool
eqb_ℤ a b = eqb (pos_part a + neg_part b) (pos_part b + neg_part a)

-- `a / k` and `a % k` for a positive constant, which round towards zero.
unfoldable pub div_trunc : ℤ → ℕ → ℤ
div_trunc a k = sub_ℕ (pos_part a / k) (neg_part a / k)

unfoldable pub mod_trunc : ℤ → ℕ → ℤ
mod_trunc a k = sub_ℕ (pos_part a % k) (neg_part a % k)

pub eq_of_parts : (a b : ℤ) → pos_part a + neg_part b ≡ pos_part b + neg_part a → a ≡ b
eq_of_parts a b h = ground arith

-- One lemma for each operation lets `omega` work with the operations shut.
pub +ℤ_parts :
    (a b : ℤ)
    → pos_part (a +ℤ b) + neg_part a + neg_part b ≡ neg_part (a +ℤ b) + pos_part a + pos_part b
unfolding ◌+ℤ◌
+ℤ_parts a b = ground arith

pub -ℤ_parts :
    (a b : ℤ)
    → pos_part (a -ℤ b) + neg_part a + pos_part b ≡ neg_part (a -ℤ b) + pos_part a + neg_part b
unfolding ◌-ℤ◌
-ℤ_parts a b = ground arith

pub *ℤ_parts :
    (a : ℤ) (k : ℕ) → pos_part (a *ℤ k) + neg_part a * k ≡ neg_part (a *ℤ k) + pos_part a * k
unfolding ◌*ℤ◌
*ℤ_parts a k = ground arith

-- The signed number of a range of `2 * half` that a number below `2 * half` is the bits of.
abbrev signed : ℕ → ℕ → ℤ
signed half n = if ltb n half then pos n else negsuc (half + half - 1 - n)

-- What is left of a number in 64 and in 32 bits, signed.
unfoldable pub wrap_int64 : ℤ → ℤ
wrap_int64 (pos n) = signed 9223372036854775808 (n % 18446744073709551616)
wrap_int64 (negsuc n) = signed 9223372036854775808 (18446744073709551615 - n % 18446744073709551616)

unfoldable pub wrap_int32 : ℤ → ℤ
wrap_int32 (pos n) = signed 2147483648 (n % 4294967296)
wrap_int32 (negsuc n) = signed 2147483648 (4294967295 - n % 4294967296)

-- A number that an int64_t holds.
abbrev pub IsInt64 : ℤ → Type 0
IsInt64 v = (pos_part v ≤ 9223372036854775807) × (neg_part v ≤ 9223372036854775808)

-- One part of a number is zero, so bounds of the difference bound both.
pub parts_within :
    (v : ℤ) (above below : ℕ)
    → pos_part v ≤ neg_part v + above
    → neg_part v ≤ pos_part v + below
    → (pos_part v ≤ above) × (neg_part v ≤ below)
parts_within (pos n) above below h k = (omega arith, omega arith)
parts_within (negsuc n) above below h k = (omega arith, omega arith)

pub wrap_int64-own : (v : ℤ) → IsInt64 v → wrap_int64 v ≡ v
unfolding wrap_int64
wrap_int64-own (pos n) (above, below) = ground arith
wrap_int64-own (negsuc n) (above, below) = ground arith

pub wrap_int32-own :
    (v : ℤ) → (pos_part v ≤ 2147483647) × (neg_part v ≤ 2147483648) → wrap_int32 v ≡ v
unfolding wrap_int32
wrap_int32-own (pos n) (above, below) = ground arith
wrap_int32-own (negsuc n) (above, below) = ground arith
