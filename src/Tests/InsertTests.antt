-- ===== src/Tests/InsertTests.antt =====
-- The theorems on the insert at concrete inputs.
use duckdb_paimon.Prelude.{
  ℕ, ◌≡◌, refl, false, String, none, some, List, [], ◌∷◌, length, Map, assign,
}
use duckdb_paimon.Sql.{ok}
use duckdb_paimon.Insert.Sink.{
  Row, WriterApi, SinkLocal, Partitioning, same_key, key_before, add_row, key_value, row_key,
  keyed_rows, group_rows, partition_of, group_batches, sink_batches,
}
use duckdb_paimon.Insert.Commit.{
  SinkGlobal, messages_from, local_messages, combine, combine_each, finalize, get_data, prepared,
  counted, nothing_yet, insert_commits,
}
use duckdb_paimon.Insert.Grouping.{weigh_batches, weigh_chunk, sink_batches-weighs}

abbrev by_p : Partitioning
by_p = record { part_key_names = "p" ∷ []; part_col_idxs = 0 ∷ []; null_part_name = "none" }

abbrev row_b : Row
row_b = some "b" ∷ some "1" ∷ []

abbrev row_null : Row
row_null = none ∷ some "2" ∷ []

abbrev row_a : Row
row_a = some "a" ∷ some "3" ∷ []

abbrev chunk : List Row
chunk = row_b ∷ row_null ∷ row_a ∷ row_b ∷ []

abbrev batches : List (Map String × List Row)
batches =
    (("p", "a") ∷ [], row_a ∷ [])
    ∷ (("p", "b") ∷ [], row_b ∷ row_b ∷ [])
    ∷ (("p", "none") ∷ [], row_null ∷ [])
    ∷ []

rows_grouped : sink_batches by_p chunk ≡ ok batches
unfolding sink_batches keyed_rows row_key key_value group_rows add_row same_key key_before
    group_batches partition_of assign
rows_grouped = refl

abbrev one_each : Map String → Row → ℕ
one_each partition row = length partition

sink_batches-weighs_example :
    weigh_batches one_each ("p" ∷ []) batches ≡ weigh_chunk one_each by_p chunk
sink_batches-weighs_example = sink_batches-weighs one_each by_p chunk batches rows_grouped

-- A writer that is a number, which is its message.
abbrev numbered : WriterApi ℕ ℕ
numbered = record {
  write = λ w partition rows. (none, w);
  prepare_commit = λ w. (none, w ∷ []);
  close = λ w. none;
}

abbrev threads : List (SinkLocal ℕ)
threads =
    record { writer = 7; local_count = 2 }
    ∷ record { writer = 8; local_count = 0 }
    ∷ record { writer = 9; local_count = 3 }
    ∷ []

abbrev gathered : SinkGlobal ℕ
gathered = record { all_commit_messages = 7 ∷ 9 ∷ []; insert_count = 5; finished = false }

all_combined : combine_each numbered (nothing_yet numbered) threads ≡ ok gathered
unfolding combine_each combine local_messages messages_from
all_combined = refl

all_committed : finalize numbered (λ ms. none) gathered ≡ ok (7 ∷ 9 ∷ [])
unfolding finalize
all_committed = refl

insert_commits_example :
    (◌≡◌ {A = List ℕ} (7 ∷ 9 ∷ []) (prepared numbered threads))
    × ((get_data numbered gathered).0 ≡ some (counted numbered threads))
    × ((get_data numbered (get_data numbered gathered).1).0 ≡ none)
insert_commits_example =
    insert_commits numbered (λ ms. none) threads gathered (7 ∷ 9 ∷ []) all_combined all_committed
