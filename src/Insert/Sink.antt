-- ===== src/Insert/Sink.antt =====
-- `PhysicalPaimonInsert::Sink`: the rows of a chunk are grouped by the values of the partition keys, and
-- each group is written with its partition.
use Prim.Native.String.{compare}
use text.Mathlib.Text.{is_lt}
use duckdb_paimon.Prelude.{
  ℕ, ◌+◌, Bool, true, false, ◌&&◌, String, ◌==◌, Option, none, some, List, [], ◌∷◌, ◌++◌, get_elem?,
  is_empty, length, Map, assign, lookup, suc, if◌then◌else◌,
}
use duckdb_paimon.Sql.{Result, ok, throw, io_exception, internal_exception, ◌>>=◌}
use duckdb_paimon.Paimon.{Status}

-- A row by the texts of its values; a null is none.
abbrev pub Row : Type 0
Row = List (Option String)

-- paimon::FileStoreWrite, with the batch builder before each write. A status is none where it is
-- `ok()`.
pub record WriterApi (Writer Message : Type 0) : Type 0 where
  pub write : Writer → Map String → List Row → Option Status × Writer
  pub prepare_commit : Writer → Option Status × List Message
  pub close : Writer → Option Status

-- The part of `PaimonInsertGlobalState` that `Sink` reads.
pub record Partitioning : Type 0 where
  pub part_key_names : List String
  pub part_col_idxs : List ℕ
  pub null_part_name : String

pub record SinkLocal (Writer : Type 0) : Type 0 where
  pub writer : Writer
  pub local_count : ℕ

-- `partition_groups`, in the order of its keys.
abbrev pub Groups : Type 0
Groups = List (List String × List Row)

unfoldable pub same_key : List String → List String → Bool
same_key [] [] = true
same_key (x ∷ xs) (y ∷ ys) = x == y && same_key xs ys
same_key _ _ = false

-- The order of vectors of strings.
unfoldable pub key_before : List String → List String → Bool
key_before [] [] = false
key_before [] (y ∷ ys) = true
key_before (x ∷ xs) [] = false
key_before (x ∷ xs) (y ∷ ys) =
    let rest = key_before xs ys in if x == y then rest else is_lt (compare x y)

-- `emplace` of an empty group and `push_back` of the row.
unfoldable pub add_row : List String → Row → Groups → Groups
add_row key row [] = (key, row ∷ []) ∷ []
add_row key row ((k, rows) ∷ groups) =
    let later = add_row key row groups in
    if same_key k key
    then (k, rows ++ row ∷ []) ∷ groups
    else if key_before key k
    then (key, row ∷ []) ∷ (k, rows) ∷ groups
    else (k, rows) ∷ later

unfoldable pub key_value : String → Option (Option String) → Result String
key_value null_name none =
    throw (internal_exception "Attempted to access index within vector out of range")
key_value null_name (some none) = ok null_name
key_value null_name (some (some text)) = ok text

unfoldable pub row_key : String → List ℕ → Row → Result (List String)
row_key null_name [] row = ok []
row_key null_name (i ∷ idxs) row = do
  first ← key_value null_name (get_elem? row i)
  later ← row_key null_name idxs row
  ok (first ∷ later)

unfoldable pub keyed_rows : Partitioning → List Row → Result (List (List String × Row))
keyed_rows g [] = ok []
keyed_rows g (row ∷ rows) = do
  key ← row_key g.null_part_name g.part_col_idxs row
  later ← keyed_rows g rows
  ok ((key, row) ∷ later)

-- The loop over the rows.
unfoldable pub group_rows : List (List String × Row) → Groups → Groups
group_rows [] groups = groups
group_rows ((key, row) ∷ keyed) groups = group_rows keyed (add_row key row groups)

-- `partition[part_names[i]] = key_values[i]`
unfoldable pub partition_of : List String → List String → Map String → Map String
partition_of [] values partition = partition
partition_of (name ∷ names) [] partition = partition
partition_of (name ∷ names) (v ∷ values) partition =
    partition_of names values (assign name v partition)

unfoldable pub group_batches : List String → Groups → List (Map String × List Row)
group_batches names [] = []
group_batches names ((key, rows) ∷ groups) =
    (partition_of names key [], rows) ∷ group_batches names groups

-- What `Sink` writes of a chunk: the partitions with their rows.
unfoldable pub sink_batches : Partitioning → List Row → Result (List (Map String × List Row))
sink_batches g chunk =
    if is_empty g.part_col_idxs
    then ok (([], chunk) ∷ [])
    else keyed_rows g chunk >>= λ keyed. ok (group_batches g.part_key_names (group_rows keyed []))

abbrev after : Option ℕ → Option ℕ
after none = none
after (some i) = some (suc i)

unfoldable pub index_of : String → List String → Option ℕ
index_of name [] = none
index_of name (field ∷ fields) =
    let later = index_of name fields in if field == name then some 0 else after later

-- The places of the partition keys among the table's fields.
unfoldable pub part_indexes : List String → List String → Result (List ℕ)
part_indexes fields [] = ok []
part_indexes fields (key ∷ keys) = elim (index_of key fields) [
  | none ↦ throw (io_exception "Partition key not found in Paimon table schema")
  | some i ↦ part_indexes fields keys >>= λ later. ok (i ∷ later)
]

abbrev or_default : Option String → String
or_default none = "__DEFAULT_PARTITION__"
or_default (some name) = name

-- The partition part of `GetGlobalSinkState`, given the field names and the options of the table's
-- DataSchema, or none; the key is `PARTITION_DEFAULT_NAME`.
unfoldable pub init_partitioning :
    String → Result (Option (List String × Map String)) → List String → Result Partitioning
init_partitioning default_key loaded [] =
    ok (record { part_key_names = []; part_col_idxs = []; null_part_name = or_default none })
init_partitioning default_key (throw e) (k ∷ ks) = throw e
init_partitioning default_key (ok none) (k ∷ ks) =
    throw (io_exception "Failed to resolve Paimon data schema for partitioned insert")
init_partitioning default_key (ok (some (fields, options))) (k ∷ ks) = do
  idxs ← part_indexes fields (k ∷ ks)
  ok (record {
    part_key_names = k ∷ ks;
    part_col_idxs = idxs;
    null_part_name = or_default (lookup default_key options);
  })

module _ {Writer : Type 0} (write : Writer → Map String → List Row → Option Status × Writer) where
  unfoldable pub written : Option Status × Writer → Result Writer
  written (none, writer) = ok writer
  written (some e, writer) = throw (io_exception e.text)

  -- `WriteChunkWithPartition` on each batch.
  unfoldable pub write_each : Writer → List (Map String × List Row) → Result Writer
  write_each writer [] = ok writer
  write_each writer ((partition, rows) ∷ batches) = do
    next ← written (write writer partition rows)
    write_each next batches

module _ {Writer Message : Type 0} (api : WriterApi Writer Message) where
  -- `Sink`
  unfoldable pub sink : Partitioning → SinkLocal Writer → List Row → Result (SinkLocal Writer)
  sink g l chunk = do
    batches ← sink_batches g chunk
    writer ← write_each api.write l.writer batches
    ok (record { writer = writer; local_count = l.local_count + length chunk })
