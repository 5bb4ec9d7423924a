-- ===== src/TypeUtils.antt =====
-- src/paimon_storage/paimon_type_utils.cpp: the field type that paimon-cpp gives to a DuckDB type,
-- and the literal that it gives to a value. An `int64_t` is a ℤ, and a product or a
-- difference of such keeps its 64 bits, as the compiled code does.
pub mod Timestamps
use duckdb_paimon.Prelude.{ℕ, String, Bool, Option, none, some, ◌^◌, ◌≡◌, if◌then◌else◌}
use duckdb_paimon.Prelude.Int.{
  ℤ, pos, ltb_ℤ, ◌+ℤ◌, ◌-ℤ◌, ◌*ℤ◌, div_trunc, mod_trunc, wrap_int64, wrap_int32,
}
use duckdb_paimon.Sql.{
  LogicalTypeId, PhysicalType, LogicalType, Value, Hugeint, Duckdb, io_exception, Result, ok, throw,
}

-- paimon::FieldType
pub data FieldType : Type 0 where
  boolean tinyint smallint int bigint float double string binary timestamp decimal date unknown :
      FieldType

pub data Literal : Type 0 where
  boolean : Bool → Literal
  tinyint smallint int bigint : ℤ → Literal
  float double : ℕ → Literal
  string : String → Literal
  date : ℤ → Literal
  -- `Timestamp::FromEpochMillis(millis, nano_of_millis)`
  timestamp : ℤ → ℤ → Literal
  -- `Decimal(width, scale, raw)`
  decimal : ℕ → ℕ → ℤ → Literal

unfoldable pub convert_field_type : LogicalType → FieldType
convert_field_type type = elim type.id [
  | LogicalTypeId.boolean ↦ FieldType.boolean
  | LogicalTypeId.tinyint ↦ FieldType.tinyint
  | LogicalTypeId.smallint ↦ FieldType.smallint
  | LogicalTypeId.integer ↦ FieldType.int
  | LogicalTypeId.bigint ↦ FieldType.bigint
  | LogicalTypeId.float ↦ FieldType.float
  | LogicalTypeId.double ↦ FieldType.double
  | LogicalTypeId.varchar ↦ FieldType.string
  | LogicalTypeId.blob ↦ FieldType.binary
  | LogicalTypeId.timestamp ↦ FieldType.timestamp
  | LogicalTypeId.timestamp_tz ↦ FieldType.timestamp
  | LogicalTypeId.timestamp_ms ↦ FieldType.timestamp
  | LogicalTypeId.timestamp_sec ↦ FieldType.timestamp
  | LogicalTypeId.timestamp_ns ↦ FieldType.timestamp
  | LogicalTypeId.decimal ↦ FieldType.decimal
  | LogicalTypeId.date ↦ FieldType.date
  | _ ↦ FieldType.unknown
]

-- `value / unit - (value % unit < 0 ? 1 : 0)`
unfoldable pub floor_div : ℤ → ℕ → ℤ
floor_div value unit =
    div_trunc value unit -ℤ (if ltb_ℤ (mod_trunc value unit) (pos 0) then pos 1 else pos 0)

-- The inner switch of the TIMESTAMP case: milliseconds and the nanoseconds within them.
unfoldable pub epoch_millis : LogicalTypeId → ℤ → ℤ × ℤ
epoch_millis LogicalTypeId.timestamp_ms value = (value, pos 0)
epoch_millis LogicalTypeId.timestamp_sec value = (wrap_int64 (value *ℤ 1000), pos 0)
epoch_millis LogicalTypeId.timestamp_ns nanos =
    let millis = floor_div nanos 1000000 in
    (millis, wrap_int32 (wrap_int64 (nanos -ℤ wrap_int64 (millis *ℤ 1000000))))
epoch_millis _ micros =
    let millis = floor_div micros 1000 in
    (millis, wrap_int32 (wrap_int64 (wrap_int64 (micros -ℤ wrap_int64 (millis *ℤ 1000)) *ℤ 1000)))

module _ (db : Duckdb) where
  -- The switch on the physical type in the DECIMAL case.
  unfoldable pub decimal_hugeint : Value → Option Hugeint
  decimal_hugeint value = elim value.type.internal_type [
    | PhysicalType.int16 ↦ some (db.hugeint_convert value.get_int16)
    | PhysicalType.int32 ↦ some (db.hugeint_convert value.get_int32)
    | PhysicalType.int64 ↦ some (db.hugeint_convert value.get_int64)
    | PhysicalType.int128 ↦ some value.get_hugeint
    | _ ↦ none
  ]

  -- `(upper << 64) | lower`, whose operands share no bit.
  unfoldable pub decimal_raw : Hugeint → ℤ
  decimal_raw h = h.upper *ℤ (2 ^ 64) +ℤ pos h.lower

  literal_of : Value → FieldType → Option Literal
  literal_of value FieldType.boolean = some (Literal.boolean value.get_bool)
  literal_of value FieldType.tinyint = some (Literal.tinyint value.get_int8)
  literal_of value FieldType.smallint = some (Literal.smallint value.get_int16)
  literal_of value FieldType.int = some (Literal.int value.get_int32)
  literal_of value FieldType.bigint = some (Literal.bigint value.get_int64)
  literal_of value FieldType.float = some (Literal.float value.get_float)
  literal_of value FieldType.double = some (Literal.double value.get_double)
  literal_of value FieldType.string = some (Literal.string value.to_string)
  literal_of value FieldType.date = some (Literal.date value.get_int32)
  literal_of value FieldType.timestamp =
      let (millis, nano) = epoch_millis value.type.id value.get_timestamp in
      some (Literal.timestamp millis nano)
  literal_of value FieldType.decimal = elim (decimal_hugeint value) [
    | none ↦ none
    | some h ↦ some (Literal.decimal value.type.width value.type.scale (decimal_raw h))
  ]
  literal_of value _ = none

  unfoldable pub convert_literal : Value → FieldType → Result (Option Literal)
  unfolding literal_of decimal_hugeint
  convert_literal value field_type =
      if value.is_null
      then throw (io_exception "literal cannot be NULL")
      else ok (literal_of value field_type)
