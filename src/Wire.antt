-- ===== src/Wire.antt =====
-- DuckDB's binary serializer as the code uses it: `WriteProperty` and `ReadProperty` of a field with its
-- number, `WriteObject` and `ReadObject`, and the end of an object, which `End` writes too. What is written is
-- put in front of what is written after it. The bytes themselves are DuckDB's.
use duckdb_paimon.Prelude.{ℕ, ◌≡◌, Bool, false, String, List, Map, is_empty}
use duckdb_paimon.Prelude.Int.{ℤ}
use duckdb_paimon.Sql.{LogicalType, Result, ok}
use duckdb_paimon.TablePath.{Text}

-- The types that are written. A string is one kind or the other, by how the model holds it.
pub data Kind : Type 0 where
  text string integer index boolean types names options : Kind

abbrev pub Field : Kind → Type 0
Field Kind.text = Text
Field Kind.string = String
Field Kind.integer = ℤ
Field Kind.index = ℕ
Field Kind.boolean = Bool
Field Kind.types = List LogicalType
Field Kind.names = List String
Field Kind.options = Map String

pub record Wire : Type 0 where
  pub put : (k : Kind) → ℕ → Field k → Text → Text
  pub get : (k : Kind) → ℕ → Text → Result (Field k × Text)
  pub open_object : ℕ → Text → Text
  pub enter_object : ℕ → Text → Result Text
  pub close : Text → Text
  pub leave : Text → Result Text

-- A value of a kind that is read back as it was written, with what follows it, under any number.
abbrev pub Reads : Wire → (k : Kind) → Field k → Type 0
Reads wire k v = (id : ℕ) (rest : Text) → wire.get k id (wire.put k id v rest) ≡ ok (v, rest)

-- What is relied on: numbers, truth values and texts are read back, and objects are entered and left where
-- they were. Of the other kinds it is asked at the values that are sent.
pub record IsFaithful (wire : Wire) : Type 0 where
  pub texts : (v : Text) → Reads wire Kind.text v
  pub integers : (v : ℤ) → Reads wire Kind.integer v
  pub indexes : (v : ℕ) → Reads wire Kind.index v
  pub booleans : (v : Bool) → Reads wire Kind.boolean v
  pub enters : (id : ℕ) (rest : Text) → wire.enter_object id (wire.open_object id rest) ≡ ok rest
  pub leaves : (rest : Text) → wire.leave (wire.close rest) ≡ ok rest
  -- A field has bytes.
  pub put-ne :
      (k : Kind) (id : ℕ) (v : Field k) (rest : Text) → is_empty (wire.put k id v rest) ≡ false
