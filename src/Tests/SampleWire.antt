-- ===== src/Tests/SampleWire.antt =====
-- A serializer that writes each field behind its number as a list of numbers, and refuses a field under
-- another number. Texts, numbers and truth values are read back whatever they are; the strings and the types
-- are those of the samples.
use duckdb_paimon.Prelude.{
  ℕ, zero, suc, ◌≡◌, ◌∙◌, refl, ap, ap₂, Bool, true, false, String, List, [], ◌∷◌, ◌++◌, Map, arith,
  length, take, drop, eqb, ◌==◌, if◌then◌else◌,
}
use duckdb_paimon.Prelude.Int.{ℤ, pos, negsuc}
use duckdb_paimon.Sql.{LogicalType, LogicalTypeId, PhysicalType, Result, ok, throw, serialization}
use duckdb_paimon.TablePath.{Text}
use duckdb_paimon.Wire.{Kind, Field, Wire, Reads, IsFaithful}
use duckdb_paimon.Tests.Sample.{varchar_type}

abbrev pub int_type : LogicalType
int_type = record {
  id = LogicalTypeId.integer;
  width = 0;
  scale = 0;
  internal_type = PhysicalType.int32;
}

take-append : (xs rest : Text) → take (length xs) (xs ++ rest) ≡ xs
take-append [] [] = refl
take-append [] (x ∷ rest) = refl
take-append (x ∷ xs) rest = ap (◌∷◌ x) (take-append xs rest)

drop-append : (xs rest : Text) → drop (length xs) (xs ++ rest) ≡ rest
drop-append [] [] = refl
drop-append [] (x ∷ rest) = refl
drop-append (x ∷ xs) rest = drop-append xs rest

abbrev sample_strings : List String
sample_strings =
    "db" ∷ "t" ∷ "u" ∷ "/t" ∷ "__DEFAULT_PARTITION__" ∷ "a" ∷ "p" ∷ "v" ∷ "file.format" ∷ "orc"
    ∷ "w/d.db/t" ∷ "schema" ∷ []

unfoldable pub code_in : List String → String → ℕ
code_in [] s = 0
code_in (x ∷ xs) s = let rest = code_in xs s in if x == s then 0 else suc rest

unfoldable pub string_in : List String → ℕ → String
string_in [] n = ""
string_in (x ∷ xs) zero = x
string_in (x ∷ xs) (suc n) = string_in xs n

abbrev type_code : LogicalType → ℕ
type_code t = elim t.id [ LogicalTypeId.integer ↦ 0 | _ ↦ 1 ]

abbrev type_of : ℕ → LogicalType
type_of zero = int_type
type_of (suc n) = varchar_type

unfoldable pub put_types : List LogicalType → Text → Text
put_types [] rest = 0 ∷ rest
put_types (t ∷ ts) rest = 1 ∷ type_code t ∷ put_types ts rest

unfoldable pub get_types : Text → List LogicalType × Text
get_types (suc k ∷ code ∷ rest) = let (ts, after) = get_types rest in (type_of code ∷ ts, after)
get_types (zero ∷ rest) = ([], rest)
get_types _ = ([], [])

unfoldable pub put_names : List String → Text → Text
put_names [] rest = 0 ∷ rest
put_names (s ∷ names) rest = 1 ∷ code_in sample_strings s ∷ put_names names rest

unfoldable pub get_names : Text → List String × Text
get_names (suc k ∷ code ∷ rest) =
    let (names, after) = get_names rest in (string_in sample_strings code ∷ names, after)
get_names (zero ∷ rest) = ([], rest)
get_names _ = ([], [])

unfoldable pub put_options : Map String → Text → Text
put_options [] rest = 0 ∷ rest
put_options ((key, v) ∷ m) rest =
    1 ∷ code_in sample_strings key ∷ code_in sample_strings v ∷ put_options m rest

unfoldable pub get_options : Text → Map String × Text
get_options (suc k ∷ key ∷ v ∷ rest) =
    let (m, after) = get_options rest in
    ((string_in sample_strings key, string_in sample_strings v) ∷ m, after)
get_options (zero ∷ rest) = ([], rest)
get_options _ = ([], [])

unfoldable pub put_field : (k : Kind) → Field k → Text → Text
put_field Kind.text v rest = length v ∷ v ++ rest
put_field Kind.string v rest = code_in sample_strings v ∷ rest
put_field Kind.integer (pos n) rest = 0 ∷ n ∷ rest
put_field Kind.integer (negsuc n) rest = 1 ∷ n ∷ rest
put_field Kind.index v rest = v ∷ rest
put_field Kind.boolean v rest = (if v then 1 else 0) ∷ rest
put_field Kind.types v rest = put_types v rest
put_field Kind.names v rest = put_names v rest
put_field Kind.options v rest = put_options v rest

abbrev cut_off : {A : Type 0} → Result A
cut_off = throw (serialization "end of the data")

unfoldable pub get_field : (k : Kind) → Text → Result (Field k × Text)
get_field Kind.text (n ∷ rest) = ok (take n rest, drop n rest)
get_field Kind.string (n ∷ rest) = ok (string_in sample_strings n, rest)
get_field Kind.integer (zero ∷ n ∷ rest) = ok (pos n, rest)
get_field Kind.integer (suc k ∷ n ∷ rest) = ok (negsuc n, rest)
get_field Kind.index (n ∷ rest) = ok (n, rest)
get_field Kind.boolean (n ∷ rest) = ok (eqb n 1, rest)
get_field Kind.types bytes = ok (get_types bytes)
get_field Kind.names bytes = ok (get_names bytes)
get_field Kind.options bytes = ok (get_options bytes)
get_field _ _ = cut_off

-- What follows a field number.
unfoldable pub under : ℕ → Text → Result Text
under id [] = cut_off
under id (n ∷ rest) = if eqb n id then ok rest else throw (serialization "unexpected field")

unfoldable pub get_under : (k : Kind) → Result Text → Result (Field k × Text)
get_under k (ok rest) = get_field k rest
get_under k (throw e) = throw e

under_own : (id : ℕ) (rest : Text) → under id (id ∷ rest) ≡ ok rest
unfolding under
under_own id rest = ground arith

unfoldable pub wire : Wire
wire = record {
  put = λ k id v rest. id ∷ put_field k v rest;
  get = λ k id bytes. get_under k (under id bytes);
  open_object = λ id rest. id ∷ rest;
  enter_object = under;
  close = λ rest. 0 ∷ rest;
  leave = under 0;
}

-- A value that is read back without its number is read back with it.
pub read_under :
    (k : Kind) (v : Field k)
    → ((rest : Text) → get_field k (put_field k v rest) ≡ ok (v, rest))
    → Reads wire k v
unfolding wire get_under
read_under k v h id rest = ap (get_under k) (under_own id (put_field k v rest)) ∙ h rest

get_integer :
    (v : ℤ) (rest : Text) → get_field Kind.integer (put_field Kind.integer v rest) ≡ ok (v, rest)
unfolding get_field put_field
get_integer (pos n) rest = refl
get_integer (negsuc n) rest = refl

get_boolean :
    (v : Bool) (rest : Text) → get_field Kind.boolean (put_field Kind.boolean v rest) ≡ ok (v, rest)
unfolding get_field put_field
get_boolean true rest = refl
get_boolean false rest = refl

get_text : (v rest : Text) → get_field Kind.text (put_field Kind.text v rest) ≡ ok (v, rest)
unfolding get_field put_field
get_text v rest = ap₂ (λ x y. ok (x, y)) (take-append v rest) (drop-append v rest)

get_index :
    (v : ℕ) (rest : Text) → get_field Kind.index (put_field Kind.index v rest) ≡ ok (v, rest)
unfolding get_field put_field
get_index v rest = refl

pub wire-IsFaithful : IsFaithful wire
unfolding wire
wire-IsFaithful = record {
  texts = λ v. read_under Kind.text v (get_text v);
  integers = λ v. read_under Kind.integer v (get_integer v);
  indexes = λ v. read_under Kind.index v (get_index v);
  booleans = λ v. read_under Kind.boolean v (get_boolean v);
  enters = under_own;
  leaves = under_own 0;
  put-ne = λ k id v rest. refl;
}
