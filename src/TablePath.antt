-- ===== src/TablePath.antt =====
-- src/paimon_functions.cpp: the arguments of the table functions. A path is the list of its
-- characters' codes; `find_last_of` and `substr` are written out.
use duckdb_paimon.Prelude.{
  ℕ, Bool, true, false, Option, none, some, List, [], ◌∷◌, if◌then◌else◌, eqb, ◌&&◌, length, take,
  drop, leb, ◌-◌,
}
use duckdb_paimon.Sql.{Result, ok, throw, invalid_input, internal_exception}

abbrev pub Text : Type 0
Text = List ℕ

pub record PaimonTablePath : Type 0 where
  pub warehouse : Text
  pub dbname : Text
  pub tablename : Text

-- `find_last_of('/')` then `substr(0, slash)` and `substr(slash + 1)`.
unfoldable pub split_last_slash : Text → Option (Text × Text)
split_last_slash [] = none
split_last_slash (c ∷ rest) = elim (split_last_slash rest) [
  | some (before, after) ↦ some (c ∷ before, after)
  | none ↦ if eqb c b'/' then some ([], rest) else none
]

abbrev pub text_eq : Text → Text → Bool
text_eq [] [] = true
text_eq (x ∷ xs) (y ∷ ys) = eqb x y && text_eq xs ys
text_eq _ _ = false

-- The rest of a text before the suffix, if it ends so: `EndsWith` and the `substr` behind it.
unfoldable pub strip_suffix : Text → Text → Option Text
strip_suffix suffix text =
    if leb (length suffix) (length text) && text_eq (drop (length text - length suffix) text) suffix
    then some (take (length text - length suffix) text)
    else none

-- `substr(last_slash + 1)` and `substr(0, last_slash)`: with no slash, `npos` makes both the whole.
unfoldable pub split_or_whole : Text → Text × Text
split_or_whole text = elim (split_last_slash text) [
  | some (before, after) ↦ (before, after)
  | none ↦ (text, text)
]

unfoldable pub parse_whole : Text → Text → Result PaimonTablePath
unfolding split_or_whole
parse_whole db_suffix whole_path = elim (split_last_slash whole_path) [
  | none ↦ throw (invalid_input "Invalid database path format: missing '/'")
  | some (parent, tablename) ↦
      let (warehouse, dbname_raw) = split_or_whole parent in
      elim (strip_suffix db_suffix dbname_raw) [
        | none ↦ throw (invalid_input "Invalid database path format")
        | some dbname ↦
            ok (record { warehouse = warehouse; dbname = dbname; tablename = tablename })
      ]
]

-- `PaimonTablePath::Parse` of the inputs' texts; `db_suffix` is `paimon::Catalog::DB_SUFFIX`.
unfoldable pub parse : Text → List Text → Result PaimonTablePath
unfolding parse_whole
parse db_suffix [] = throw (invalid_input "warehouse path is necessary")
parse db_suffix (whole_path ∷ []) = parse_whole db_suffix whole_path
parse db_suffix (warehouse ∷ dbname ∷ []) =
    throw (internal_exception "Attempted to access index within vector")
parse db_suffix (warehouse ∷ dbname ∷ tablename ∷ rest) =
    ok (record { warehouse = warehouse; dbname = dbname; tablename = tablename })
