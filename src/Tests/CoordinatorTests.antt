-- ===== src/Tests/CoordinatorTests.antt =====
-- The theorems on the coordinator's side of a distributed write at concrete inputs.
use duckdb_paimon.Prelude.{
  ℕ, ◌≡◌, refl, sym, ap, false, List, [], ◌∷◌, ◌++◌, arith, map, String, length, ltb,
}
use duckdb_paimon.Sql.{ok}
use duckdb_paimon.TablePath.{Text}
use duckdb_paimon.DistributedScan.SplitIds.{all_digits}
use duckdb_paimon.DistributedInsert.Identities.{
  dot, bad_start, validate_component, after_prefix, logical_of, logical_from, logical_task_identity,
}
use duckdb_paimon.DistributedInsert.LogicalTasks.{attempt}
use duckdb_paimon.DistributedInsert.Transport.{write_operator_name}
use duckdb_paimon.DistributedInsert.Tasks.{TaskContext}
use duckdb_paimon.DistributedInsert.Worker.{fragment_of, envelope_of}
use duckdb_paimon.DistributedInsert.DecodeState.{
  DecodeState, start, seen, coordinator_contract_differs, codec_limit,
}
use duckdb_paimon.DistributedInsert.Decode.{decode_commit_results}
use duckdb_paimon.DistributedInsert.Consistency.{
  Consistent, reverse_onto, decode_commit_results-Consistent,
}
use duckdb_paimon.DistributedInsert.Decoding.{Distinct}
use duckdb_paimon.DistributedInsert.Handover.{FinishedTask, global_of, result_of, envelope_for}
use duckdb_paimon.DistributedInsert.Selectable.{
  all_messages, all_rows, AllFresh, IsSelectable, ComparesSelf,
}
use duckdb_paimon.DistributedInsert.Selection.{decode_commit_results_complete}
use duckdb_paimon.Tests.SampleWire.{wire}
use duckdb_paimon.Tests.CommitSample.{
  of_table-IsLossless, writers, numbers, codecs_agree, write_info, vane,
}
use duckdb_paimon.Tests.WriteSample.{
  split_at_dots, platform, keys, bind, bind-IsReversible, bind_bytes, bind_sent,
}

abbrev query : Text
query = b'q' ∷ []

abbrev zero_text : Text
zero_text = b'0' ∷ []

-- A task of the query by its partition.
abbrev task_of : Text → TaskContext
task_of partition = record {
  query_id = query;
  task_attempt_id = attempt query zero_text partition zero_text;
}

abbrev blank : Text → List ℕ → ℕ → FinishedTask ℕ
blank partition messages rows = record {
  task = task_of partition;
  options = [];
  next_write_id = 1;
  part_col_idxs = [];
  messages = messages;
  row_count = rows;
  fragments = [];
  texts = [];
  logical = (query ++ dot) ++ (zero_text ++ (dot ++ partition));
}

-- A task that wrote 5 rows, one that wrote none, and one that wrote 6.
abbrev wrote : Text → List ℕ → List Text → ℕ → FinishedTask ℕ
wrote partition messages texts rows = record (blank partition messages rows) {
  fragments =
      fragment_of writers wire (global_of writers platform bind (blank partition messages rows))
        (task_of partition) bind_bytes (length messages ∷ messages)
      ∷ [];
  texts = texts;
}

abbrev first : FinishedTask ℕ
first = wrote (b'1' ∷ []) (7 ∷ 8 ∷ []) ((7 ∷ []) ∷ (8 ∷ []) ∷ []) 5

abbrev second : FinishedTask ℕ
second = blank (b'2' ∷ []) [] 0

abbrev third : FinishedTask ℕ
third = wrote (b'3' ∷ []) (9 ∷ []) ((9 ∷ []) ∷ []) 6

abbrev pub tasks : List (FinishedTask ℕ)
tasks = first ∷ second ∷ third ∷ []

abbrev Selectable : FinishedTask ℕ → Type 0
Selectable = IsSelectable writers numbers platform bind write_info wire wire keys vane query

first-Selectable : Selectable first
unfolding logical_task_identity logical_from logical_of after_prefix validate_component bad_start
    all_digits platform split_at_dots envelope_of
first-Selectable = record {
  handed = record {
    ended = (bind_bytes, 2 ∷ 7 ∷ 8 ∷ [], ground arith, bind_sent, refl, refl);
    canonical = (refl, (refl, tt));
    lossless = λ tb mb. of_table-IsLossless (envelope_for writers platform bind first tb mb);
    query = refl;
    attempt = refl;
    short = λ bytes h.
        let e : 2 ∷ 7 ∷ 8 ∷ [] ≡ bytes = cc in ap (λ x. ltb codec_limit (length x)) (sym e);
  };
  of_query = refl;
  valid = refl;
  named = refl;
}

second-Selectable : Selectable second
unfolding logical_task_identity logical_from logical_of after_prefix validate_component bad_start
    all_digits platform split_at_dots envelope_of
second-Selectable = record {
  handed = record {
    ended = (refl, refl);
    canonical = tt;
    lossless = λ tb mb. of_table-IsLossless (envelope_for writers platform bind second tb mb);
    query = refl;
    attempt = refl;
    short = λ bytes h. let e : 0 ∷ [] ≡ bytes = cc in ap (λ x. ltb codec_limit (length x)) (sym e);
  };
  of_query = refl;
  valid = refl;
  named = refl;
}

third-Selectable : Selectable third
unfolding logical_task_identity logical_from logical_of after_prefix validate_component bad_start
    all_digits platform split_at_dots envelope_of
third-Selectable = record {
  handed = record {
    ended = (bind_bytes, 1 ∷ 9 ∷ [], ground arith, bind_sent, refl, refl);
    canonical = (refl, tt);
    lossless = λ tb mb. of_table-IsLossless (envelope_for writers platform bind third tb mb);
    query = refl;
    attempt = refl;
    short =
        λ bytes h. let e : 1 ∷ 9 ∷ [] ≡ bytes = cc in ap (λ x. ltb codec_limit (length x)) (sym e);
  };
  of_query = refl;
  valid = refl;
  named = refl;
}

tasks-fresh : AllFresh [] [] [] tasks
unfolding seen
tasks-fresh = (refl, refl, (refl, (refl, tt)), (refl, refl, tt, (refl, refl, (refl, tt), tt)))

compares : ComparesSelf writers numbers platform bind write_info wire wire keys vane query
compares = record { capability = refl; fragment_codec = refl }

registered :
    (name : String)
    → write_operator_name bind.write_kind ≡ ok name
    → coordinator_contract_differs write_info name ≡ false
unfolding write_operator_name coordinator_contract_differs
registered name h =
    let e : "insert" ≡ name = cc in ap (coordinator_contract_differs write_info) (sym e)

decode_commit_results_complete_example :
    (d : DecodeState ℕ) × (decode_commit_results numbers platform bind wire vane write_info wire
        keys
        (map (result_of write_info) tasks)
        start
      ≡ (ok tt, d))
    × (d.messages ≡ all_messages tasks)
    × (d.row_count ≡ all_rows tasks)
decode_commit_results_complete_example =
    decode_commit_results_complete writers numbers platform bind write_info wire wire keys vane
      query tasks bind_bytes codecs_agree bind-IsReversible compares bind_sent registered
      (first-Selectable, (second-Selectable, (third-Selectable, tt))) tasks-fresh (omega arith)

-- The results of the tasks, decoded.
all_decoded :
    (d : DecodeState ℕ) × (decode_commit_results numbers platform bind wire vane write_info wire
        keys
        (map (result_of write_info) tasks)
        start
      ≡ (ok tt, d))
    × (d.messages ≡ all_messages tasks)
    × (d.row_count ≡ all_rows tasks)
all_decoded =
    decode_commit_results_complete writers numbers platform bind write_info wire wire keys vane
      query tasks bind_bytes codecs_agree bind-IsReversible compares bind_sent registered
      (first-Selectable, (second-Selectable, (third-Selectable, tt))) tasks-fresh (omega arith)

abbrev decoded : DecodeState ℕ
decoded = all_decoded.0

decode_commit_results-Consistent_example :
    Consistent numbers platform wire (reverse_onto (map (result_of write_info) tasks) []) decoded
    × Distinct decoded.logical_task_ids
decode_commit_results-Consistent_example =
    decode_commit_results-Consistent numbers platform wire bind vane write_info wire keys
      (map (result_of write_info) tasks) decoded all_decoded.1
