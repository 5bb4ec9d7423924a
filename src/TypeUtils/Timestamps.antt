-- ===== src/TypeUtils/Timestamps.antt =====
-- The timestamp arithmetic of `ConvertLiteral` loses nothing while it fits 64 bits, before the epoch included.
use duckdb_paimon.Prelude.{ℕ, ◌+◌, ◌≤◌, ◌<◌, ◌*◌, ◌≡◌, arith}
use duckdb_paimon.Prelude.Int.{
  ℤ, pos, negsuc, pos_part, neg_part, ◌≤ℤ◌, ◌+ℤ◌, ◌-ℤ◌, ◌*ℤ◌, div_trunc, mod_trunc, +ℤ_parts,
  -ℤ_parts, *ℤ_parts, eq_of_parts, IsInt64, wrap_int64, wrap_int32, wrap_int64-own, wrap_int32-own,
  parts_within,
}
use duckdb_paimon.Sql.{LogicalTypeId}
use duckdb_paimon.TypeUtils.{epoch_millis, floor_div}

-- The instant, in nanoseconds, that a literal's two parts stand for.
abbrev pub instant_nanos : ℤ × ℤ → ℤ
instant_nanos (millis, nano) = millis *ℤ 1000000 +ℤ nano

-- The nanoseconds in one unit of a timestamp type.
abbrev pub unit_nanos : LogicalTypeId → ℕ
unit_nanos LogicalTypeId.timestamp_ms = 1000000
unit_nanos LogicalTypeId.timestamp_sec = 1000000000
unit_nanos LogicalTypeId.timestamp_ns = 1
unit_nanos _ = 1000

abbrev IsFloor : ℕ → ℤ → ℤ → Type 0
IsFloor unit v q =
    (pos_part q * unit + neg_part v ≤ pos_part v + neg_part q * unit)
    × (pos_part v + neg_part q * unit < pos_part q * unit + neg_part v + unit)

floor_div_1000 : (v : ℤ) → IsFloor 1000 v (floor_div v 1000)
unfolding floor_div div_trunc mod_trunc ◌-ℤ◌
floor_div_1000 (pos n) = ground arith
floor_div_1000 (negsuc n) = ground arith

floor_div_million : (v : ℤ) → IsFloor 1000000 v (floor_div v 1000000)
unfolding floor_div div_trunc mod_trunc ◌-ℤ◌
floor_div_million (pos n) = ground arith
floor_div_million (negsuc n) = ground arith

abbrev pub IsExact : ℕ → ℤ → ℤ × ℤ → Type 0
IsExact unit value parts =
    (instant_nanos parts ≡ value *ℤ unit) × (pos 0 ≤ℤ parts.1) × (parts.1 ≤ℤ pos 999999)

whole_millis-IsExact : (v : ℤ) → IsExact 1000000 v (v, pos 0)
whole_millis-IsExact v = (
  eq_of_parts _ _ (omega (arith, +ℤ_parts (v *ℤ 1000000) (pos 0), *ℤ_parts v 1000000)),
  omega arith,
  omega arith,
)

seconds-IsExact : (v : ℤ) → IsExact 1000000000 v (v *ℤ 1000, pos 0)
seconds-IsExact v = (
  eq_of_parts _ _ (
      omega (
        arith,
        +ℤ_parts (v *ℤ 1000 *ℤ 1000000) (pos 0),
        *ℤ_parts (v *ℤ 1000) 1000000,
        *ℤ_parts v 1000,
        *ℤ_parts v 1000000000,
      )),
  omega arith,
  omega arith,
)

nanos-IsExact : (v q : ℤ) → IsFloor 1000000 v q → IsExact 1 v (q, v -ℤ q *ℤ 1000000)
nanos-IsExact v q h = (
  eq_of_parts _ _ (
      omega (
        arith,
        +ℤ_parts (q *ℤ 1000000) (v -ℤ q *ℤ 1000000),
        -ℤ_parts v (q *ℤ 1000000),
        *ℤ_parts q 1000000,
        *ℤ_parts v 1,
      )),
  omega (arith, -ℤ_parts v (q *ℤ 1000000), *ℤ_parts q 1000000),
  omega (arith, -ℤ_parts v (q *ℤ 1000000), *ℤ_parts q 1000000),
)

micros-IsExact : (v q : ℤ) → IsFloor 1000 v q → IsExact 1000 v (q, (v -ℤ q *ℤ 1000) *ℤ 1000)
micros-IsExact v q h = (
  eq_of_parts _ _ (
      omega (
        arith,
        +ℤ_parts (q *ℤ 1000000) ((v -ℤ q *ℤ 1000) *ℤ 1000),
        *ℤ_parts (v -ℤ q *ℤ 1000) 1000,
        -ℤ_parts v (q *ℤ 1000),
        *ℤ_parts q 1000,
        *ℤ_parts q 1000000,
        *ℤ_parts v 1000,
      )),
  omega (arith, *ℤ_parts (v -ℤ q *ℤ 1000) 1000, -ℤ_parts v (q *ℤ 1000), *ℤ_parts q 1000),
  omega (arith, *ℤ_parts (v -ℤ q *ℤ 1000) 1000, -ℤ_parts v (q *ℤ 1000), *ℤ_parts q 1000),
)

-- The values whose conversion stays within 64 bits: every one in milliseconds, the seconds whose
-- milliseconds are an int64_t, and of the nanoseconds and the microseconds all but the last millisecond
-- above the smallest int64_t.
abbrev pub Fits : LogicalTypeId → ℤ → Type 0
Fits LogicalTypeId.timestamp_ms v = IsInt64 v
Fits LogicalTypeId.timestamp_sec v = IsInt64 (v *ℤ 1000)
Fits LogicalTypeId.timestamp_ns v =
    (pos_part v ≤ 9223372036854775807) × (neg_part v ≤ 9223372036853775808)
Fits _ v = (pos_part v ≤ 9223372036854775807) × (neg_part v ≤ 9223372036854774808)

nanos_left :
    (v q : ℤ)
    → IsFloor 1000000 v q
    → pos_part v ≤ 9223372036854775807
    → neg_part v ≤ 9223372036853775808
    → wrap_int32 (wrap_int64 (v -ℤ wrap_int64 (q *ℤ 1000000))) ≡ v -ℤ q *ℤ 1000000
nanos_left v q h above below =
    let product = wrap_int64-own (q *ℤ 1000000) (
      parts_within (q *ℤ 1000000) 9223372036854775807 9223372036854775808
        (omega (arith, *ℤ_parts q 1000000)) (omega (arith, *ℤ_parts q 1000000))) in
    let difference = wrap_int64-own (v -ℤ q *ℤ 1000000) (
      parts_within (v -ℤ q *ℤ 1000000) 9223372036854775807 9223372036854775808
        (omega (arith, -ℤ_parts v (q *ℤ 1000000), *ℤ_parts q 1000000))
        (omega (arith, -ℤ_parts v (q *ℤ 1000000), *ℤ_parts q 1000000))) in
    let narrow = wrap_int32-own (v -ℤ q *ℤ 1000000) (
      parts_within (v -ℤ q *ℤ 1000000) 2147483647 2147483648
        (omega (arith, -ℤ_parts v (q *ℤ 1000000), *ℤ_parts q 1000000))
        (omega (arith, -ℤ_parts v (q *ℤ 1000000), *ℤ_parts q 1000000))) in
    rw (product, difference) narrow

micros_left :
    (v q : ℤ)
    → IsFloor 1000 v q
    → pos_part v ≤ 9223372036854775807
    → neg_part v ≤ 9223372036854774808
    → wrap_int32 (wrap_int64 (wrap_int64 (v -ℤ wrap_int64 (q *ℤ 1000)) *ℤ 1000))
      ≡ (v -ℤ q *ℤ 1000) *ℤ 1000
micros_left v q h above below =
    let product = wrap_int64-own (q *ℤ 1000) (
      parts_within (q *ℤ 1000) 9223372036854775807 9223372036854775808
        (omega (arith, *ℤ_parts q 1000)) (omega (arith, *ℤ_parts q 1000))) in
    let difference = wrap_int64-own (v -ℤ q *ℤ 1000) (
      parts_within (v -ℤ q *ℤ 1000) 9223372036854775807 9223372036854775808
        (omega (arith, -ℤ_parts v (q *ℤ 1000), *ℤ_parts q 1000))
        (omega (arith, -ℤ_parts v (q *ℤ 1000), *ℤ_parts q 1000))) in
    let scaled = wrap_int64-own ((v -ℤ q *ℤ 1000) *ℤ 1000) (
      parts_within ((v -ℤ q *ℤ 1000) *ℤ 1000) 9223372036854775807 9223372036854775808
        (omega (arith, *ℤ_parts (v -ℤ q *ℤ 1000) 1000, -ℤ_parts v (q *ℤ 1000), *ℤ_parts q 1000))
        (omega (arith, *ℤ_parts (v -ℤ q *ℤ 1000) 1000, -ℤ_parts v (q *ℤ 1000), *ℤ_parts q 1000))) in
    let narrow = wrap_int32-own ((v -ℤ q *ℤ 1000) *ℤ 1000) (
      parts_within ((v -ℤ q *ℤ 1000) *ℤ 1000) 2147483647 2147483648
        (omega (arith, *ℤ_parts (v -ℤ q *ℤ 1000) 1000, -ℤ_parts v (q *ℤ 1000), *ℤ_parts q 1000))
        (omega (arith, *ℤ_parts (v -ℤ q *ℤ 1000) 1000, -ℤ_parts v (q *ℤ 1000), *ℤ_parts q 1000))) in
    rw (product, difference, scaled) narrow

-- A timestamp whose conversion fits 64 bits, of any unit and either sign, becomes a literal of the same
-- instant, and the literal's nanoseconds lie in [0, 999999].
pub epoch_millis-IsExact :
    (id : LogicalTypeId) (value : ℤ)
    → Fits id value
    → IsExact (unit_nanos id) value (epoch_millis id value)
unfolding epoch_millis
epoch_millis-IsExact LogicalTypeId.timestamp_ms v fits = whole_millis-IsExact v
epoch_millis-IsExact LogicalTypeId.timestamp_sec v fits =
    rw (wrap_int64-own (v *ℤ 1000) fits) (seconds-IsExact v)
epoch_millis-IsExact LogicalTypeId.timestamp_ns v (above, below) =
    rw (nanos_left v (floor_div v 1000000) (floor_div_million v) above below)
      (nanos-IsExact v _ (floor_div_million v))
epoch_millis-IsExact _ v (above, below) =
    rw (micros_left v (floor_div v 1000) (floor_div_1000 v) above below)
      (micros-IsExact v _ (floor_div_1000 v))
