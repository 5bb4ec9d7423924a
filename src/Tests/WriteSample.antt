-- ===== src/Tests/WriteSample.antt =====
-- A platform, and a bind of a distributed write, on which the theorems are tried out.
use native.Mathlib.Decide.{ℕ_discrete}
use duckdb_paimon.Prelude.{
  ℕ, zero, suc, ◌≡◌, refl, ap, ◌∙◌, Bool, true, false, none, List, [], ◌∷◌, ◌++◌, arith, eqb,
  is_empty, length, Bool-cases, inl, inr, if◌then◌else◌,
}
use duckdb_paimon.Prelude.Int.{pos}
use duckdb_paimon.Sql.{LogicalType, ok}
use duckdb_paimon.Wire.{Kind}
use duckdb_paimon.TablePath.{Text}
use duckdb_paimon.Catalog.Options.{Environment}
use duckdb_paimon.DistributedInsert.Identities.{Platform, dot, is_canonical_uuid}
use duckdb_paimon.DistributedInsert.LogicalTasks.{Splits, no_dot}
use duckdb_paimon.DistributedInsert.Transport.{
  WriteTransport, IsReversible, write_fields, insert_kind, write_operator_name, bad_snapshot,
  invalid_input_column, invalid_key, invalid_write_option, is_portable_write_option,
  incomplete_target, validate_write_transport, serialize_transport,
}
use duckdb_paimon.DistributedInsert.Tasks.{WriteKeys}
use duckdb_paimon.DistributedInsert.Baseline.{ComparesTypes}
use duckdb_paimon.Tests.SampleWire.{
  wire, wire-IsFaithful, read_under, int_type, put_field, get_field, put_types, get_types,
  put_names, get_names, put_options, get_options, code_in, string_in,
}

LogicalType-discrete : Discrete LogicalType
LogicalType-discrete = hlevel (ℕ_discrete)

abbrev is_yes : {A : Type 0} → Dec A → Bool
is_yes (Dec.yes a) = true
is_yes (Dec.no f) = false

yes_of : {A : Type 0} (d : Dec A) → is_yes d ≡ true → A
yes_of (Dec.yes a) h = a
yes_of (Dec.no f) h = cc

-- `getline` up to each dot: nothing behind a last dot.
abbrev cons_first : ℕ → List Text → List Text
cons_first c [] = (c ∷ []) ∷ []
cons_first c (x ∷ xs) = (c ∷ x) ∷ xs

unfoldable pub split_at_dots : Text → List Text
split_at_dots [] = []
split_at_dots (c ∷ text) =
    let rest = split_at_dots text in if eqb c b'.' then [] ∷ rest else cons_first c rest

split_part :
    (f rest : Text) → no_dot f ≡ true → split_at_dots (f ++ (dot ++ rest)) ≡ f ∷ split_at_dots rest
unfolding split_at_dots no_dot
split_part [] rest h = refl
split_part (c ∷ f) rest h = elim (Bool-cases (eqb c b'.')) [
  | inl is_dot ↦ absurd (ground arith)
  | inr other ↦ rw other (ap (cons_first c) (split_part f rest (ground arith)))
]

split_last : (c : ℕ) (a : Text) → no_dot (c ∷ a) ≡ true → split_at_dots (c ∷ a) ≡ (c ∷ a) ∷ []
unfolding split_at_dots no_dot
split_last c [] h = ground arith
split_last c (d ∷ a) h = elim (Bool-cases (eqb c b'.')) [
  | inl is_dot ↦ absurd (ground arith)
  | inr other ↦ rw other (ap (cons_first c) (split_last d a (ground arith)))
]

split_filled : (a : Text) → no_dot a ≡ true → is_empty a ≡ false → split_at_dots a ≡ a ∷ []
split_filled [] h e = cc
split_filled (c ∷ a) h e = split_last c a h

unfoldable pub platform : Platform
unfolding LogicalType-discrete split_at_dots
platform = record {
  is_uuid = λ text. true;
  md5_hex = λ text. text;
  hash = λ text. length text;
  split_dots = split_at_dots;
  same_type = λ x y. is_yes (LogicalType-discrete x y);
  string_of = λ text. "prefix";
}

pub platform-Splits : Splits platform
unfolding platform
platform-Splits = record {
  split_three = λ f c a hf hc ha filled.
      split_part f (c ++ (dot ++ a)) hf
      ∙ ap (λ x. f ∷ x) (split_part c a hc ∙ ap (λ x. c ∷ x) (split_filled a ha filled));
}

pub platform-ComparesTypes : ComparesTypes platform
unfolding platform
platform-ComparesTypes = record { same_type_eq = λ x y h. yes_of (LogicalType-discrete x y) h }

abbrev pub repeat : ℕ → ℕ → Text
repeat zero c = []
repeat (suc n) c = c ∷ repeat n c

abbrev pub keys : WriteKeys
keys = record {
  catalog = record {
    table = record {
      manifest_format = "manifest.format";
      file_format = "file.format";
      scan_snapshot_id = "scan.snapshot-id";
      scan_timestamp_millis = "scan.timestamp-millis";
    };
    metastore = "metastore";
    uri = "uri";
    token_provider = "token.provider";
    token = "token";
    file_system = "file-system";
    read_batch_size = "read.batch-size";
  };
  data_file_prefix = "data-file.prefix";
  partition_default_name = "partition.default-name";
}

abbrev pub environment : Environment
environment = record {
  lower = λ s. s;
  trim = λ s. s;
  lookup_secret = λ path. none;
  epoch_millis_text = λ text. ok text;
  standard_vector_size = "2048";
}

abbrev pub bind : WriteTransport
bind = record {
  write_kind = insert_kind;
  operation_id = repeat 36 b'1';
  database_name = "db";
  table_name = "t";
  table_uuid = "u";
  table_path = "/t";
  schema_fingerprint = repeat 32 b'a';
  schema_id = pos 0;
  append_only = true;
  has_snapshot = false;
  snapshot_id = pos 0;
  commit_identifier = pos 5;
  input_types = int_type ∷ [];
  input_names = "a" ∷ [];
  part_keys = [];
  null_part_name = "__DEFAULT_PARTITION__";
  portable_options = ("file.format", "orc") ∷ [];
}

pub bind-IsReversible : IsReversible wire bind
unfolding put_field get_field put_types get_types put_names get_names put_options get_options
    code_in string_in
bind-IsReversible = record {
  faithful = wire-IsFaithful;
  database_name = read_under Kind.string bind.database_name (λ rest. refl);
  table_name = read_under Kind.string bind.table_name (λ rest. refl);
  table_path = read_under Kind.string bind.table_path (λ rest. refl);
  table_uuid = read_under Kind.string bind.table_uuid (λ rest. refl);
  null_part_name = read_under Kind.string bind.null_part_name (λ rest. refl);
  input_types = read_under Kind.types bind.input_types (λ rest. refl);
  input_names = read_under Kind.names bind.input_names (λ rest. refl);
  part_keys = read_under Kind.names bind.part_keys (λ rest. refl);
  portable_options = read_under Kind.options bind.portable_options (λ rest. refl);
}

pub bind_valid : validate_write_transport platform keys.catalog.table bind ≡ ok tt
unfolding validate_write_transport incomplete_target is_canonical_uuid platform write_operator_name
    bad_snapshot invalid_input_column invalid_key invalid_write_option is_portable_write_option
bind_valid = refl

abbrev pub bind_bytes : Text
bind_bytes = write_fields wire bind

pub bind_sent : serialize_transport platform keys.catalog.table wire bind ≡ ok bind_bytes
unfolding serialize_transport
bind_sent = rw bind_valid refl
