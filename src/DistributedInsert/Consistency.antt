-- ===== src/DistributedInsert/Consistency.antt =====
-- What the coordinator has when it has decoded the results of the selected tasks: their rows, distinct
-- messages, and no two attempts of one logical task.
use duckdb_paimon.Prelude.{
  ℕ, ◌+◌, ◌≤◌, ◌≡◌, refl, sym, ap, Bool, true, false, not, ◌||◌, List, [], ◌∷◌, ◌++◌, arith, length,
  is_empty, All, true_of_not, length-append,
}
use mathlib.Core.Path.{subst}
use duckdb_paimon.Sql.{ok}
use duckdb_paimon.TablePath.{Text}
use duckdb_paimon.DistributedScan.Estimates.{index_maximum}
use duckdb_paimon.Wire.{Wire}
use duckdb_paimon.DistributedInsert.Actions.{
  reads-returns, raise_if-passes, raise_if-ends, next_of-returns,
}
use duckdb_paimon.DistributedInsert.Identities.{Platform, logical_task_identity}
use duckdb_paimon.DistributedInsert.Transport.{
  WriteTransport, write_operator_name, serialize_transport,
}
use duckdb_paimon.DistributedInsert.Tasks.{WriteInfo, WriteKeys}
use duckdb_paimon.DistributedInsert.DecodeState.{
  TaskResult, Vane, MessageApi, DecodeState, start, seen, with_query, with_attempt, with_logical,
  coordinator_contract_differs, is_inconsistent, query_of, duplicate_of,
}
use duckdb_paimon.DistributedInsert.Decode.{add_result, add_results, decode_commit_results}
use duckdb_paimon.DistributedScan.Matching.{text_eq→eq}
use duckdb_paimon.DistributedInsert.LogicalTasks.{logical-filled}
use duckdb_paimon.DistributedInsert.Decoding.{
  Distinct, Spelled, Fragments, Carried, add_fragments-Fragments,
}

abbrev pub total_rows : List TaskResult → ℕ
total_rows [] = 0
total_rows (r ∷ results) = r.row_count + total_rows results

abbrev pub attempts : List TaskResult → List Text
attempts [] = []
attempts (r ∷ results) = r.task_attempt_id ∷ attempts results

-- The texts are the logical tasks of the results, one by one.
abbrev pub Logicals : Platform → List TaskResult → List Text → Type 0
Logicals p [] [] = Unit
Logicals p [] (l ∷ ls) = ⊥
Logicals p (r ∷ results) [] = ⊥
Logicals p (r ∷ results) (l ∷ ls) =
    (logical_task_identity p r.query_id r.task_attempt_id ≡ ok l) × Logicals p results ls

-- The messages of results that are listed from the last to the first: those of the one result after those
-- of the results before it.
abbrev pub Gathered :
    {Message : Type 0}
    → MessageApi Message
    → Platform
    → Wire
    → List TaskResult
    → List Message
    → Type 0
Gathered messages_api p envelopes [] messages = messages ≡ []
Gathered {Message} messages_api p envelopes (r ∷ done) messages =
    (before : List Message) × (own : List Message) × (messages ≡ before ++ own)
    × Gathered messages_api p envelopes done before
    × Carried messages_api p envelopes r.fragments own

-- What the state says of the results decoded so far.
pub record Consistent {Message : Type 0} (messages_api : MessageApi Message) (p : Platform)
    (envelopes : Wire) (done : List TaskResult) (s : DecodeState Message) : Type 0 where
  pub gathered : Gathered messages_api p envelopes done s.messages
  pub spelled : Spelled messages_api s.messages s.canonical_messages
  pub rows : s.row_count ≡ total_rows done
  pub bounded : s.row_count ≤ index_maximum
  pub counted : length s.canonical_messages ≡ length s.messages
  pub distinct : Distinct s.canonical_messages
  pub attempted : s.task_attempt_ids ≡ attempts done
  pub once : Distinct s.task_attempt_ids
  pub logical : Logicals p done s.logical_task_ids
  pub logical_once : s.duplicate_logical_task_id ≡ [] → Distinct s.logical_task_ids
  pub one_query : All (λ r. r.query_id ≡ s.query_id) done
  pub unset : is_empty s.query_id ≡ true → done ≡ []

abbrev pub reverse_onto : List TaskResult → List TaskResult → List TaskResult
reverse_onto [] done = done
reverse_onto (r ∷ results) done = reverse_onto results (r ∷ done)

duplicate-none :
    (d : Text) (repeated : Bool) (l : Text)
    → duplicate_of d repeated l ≡ []
    → is_empty l ≡ false
    → (d ≡ []) × (repeated ≡ false)
duplicate-none [] true [] h filled = absurd (ground arith)
duplicate-none [] true (c ∷ l) h filled = cc
duplicate-none [] false l h filled = (refl, refl)
duplicate-none (c ∷ d) repeated l h filled = cc

empty_text : (text : Text) → is_empty text ≡ true → text ≡ []
empty_text [] h = refl
empty_text (c ∷ text) h = cc

query-agrees :
    (known q : Text) (done : List TaskResult)
    → is_inconsistent known q ≡ false
    → (is_empty known ≡ true → done ≡ [])
    → All (λ r. r.query_id ≡ known) done
    → (q ≡ query_of known q) × All (λ r. r.query_id ≡ query_of known q) done
query-agrees [] q done h none_done all =
    (refl, subst (All (λ r. r.query_id ≡ q)) (sym (none_done refl)) tt)
query-agrees (c ∷ known) q done h none_done all =
    (sym (text_eq→eq (c ∷ known) q (true_of_not _ h)), all)

query-filled : (known q : Text) → is_empty q ≡ false → is_empty (query_of known q) ≡ true → ⊥
query-filled [] q h e = absurd (ground arith)
query-filled (c ∷ known) q h e = cc

module _ {Message : Type 0} (messages_api : MessageApi Message) (p : Platform)
    (envelopes : Wire) where
  start-Consistent : Consistent messages_api p envelopes [] start
  start-Consistent = record {
    gathered = refl;
    spelled = refl;
    rows = refl;
    bounded = omega arith;
    counted = refl;
    distinct = tt;
    attempted = refl;
    once = tt;
    logical = tt;
    logical_once = λ e. tt;
    one_query = tt;
    unset = λ e. refl;
  }

  step-Consistent :
      (r : TaskResult) (done : List TaskResult) (l : Text) (s s' : DecodeState Message)
      → Consistent messages_api p envelopes done s
      → is_inconsistent s.query_id r.query_id ≡ false
      → seen r.task_attempt_id s.task_attempt_ids ≡ false
      → logical_task_identity p r.query_id r.task_attempt_id ≡ ok l
      → Fragments messages_api
          (Carried messages_api p envelopes r.fragments)
          r.row_count
          (with_logical l (with_attempt r.task_attempt_id (with_query r.query_id s)))
          s'
      → Consistent messages_api p envelopes (r ∷ done) s'
  unfolding with_logical with_attempt with_query
  step-Consistent r done l s s' c same_query fresh named
        (ids, texts, messages, same, count, distinct, bound, spelled, own) =
      let (query_filled, filled) = logical-filled p r.query_id r.task_attempt_id l named in
      let (mine, others) = query-agrees s.query_id r.query_id done same_query c.unset c.one_query in
      subst (Consistent messages_api p envelopes (r ∷ done)) (sym same) (record {
        gathered = (s.messages, messages, refl, c.gathered, own);
        spelled = spelled c.spelled;
        rows = omega (arith, c.rows);
        bounded = bound;
        counted = omega (arith, count, c.counted, length-append s.messages messages);
        distinct = distinct c.distinct;
        attempted = ap (λ ids. r.task_attempt_id ∷ ids) c.attempted;
        once = (fresh, c.once);
        logical = (named, c.logical);
        logical_once = λ e.
            let (no_duplicate, new) =
              duplicate-none s.duplicate_logical_task_id (seen l s.logical_task_ids) l e filled in
            (new, c.logical_once no_duplicate);
        one_query = (mine, others);
        unset = λ e. absurd (query-filled s.query_id r.query_id query_filled e);
      })

  module _ (t : WriteTransport) (vane : Vane) (info : WriteInfo) where
    add_result-Consistent :
        (bytes : Text) (r : TaskResult) (done : List TaskResult) (s s' : DecodeState Message)
        → Consistent messages_api p envelopes done s
        → add_result messages_api p t envelopes vane info bytes r s ≡ (ok tt, s')
        → Consistent messages_api p envelopes (r ∷ done) s'
    unfolding add_result with_query with_attempt with_logical
    add_result-Consistent bytes r done s s' c h =
        let (u, valid, h1) = reads-returns (vane.validate_result r) s _ h in
        let (contract, h2) =
          raise_if-passes
            (not (vane.same_capability r.capability info.capability)
              || not (vane.same_codec r.fragment_codec info.fragment_codec))
            _ s _ h1 in
        let (same_query, h3) = raise_if-passes (is_inconsistent s.query_id r.query_id) _ s _ h2 in
        let s1 = with_query r.query_id s in
        let (fresh, h4) = raise_if-passes (seen r.task_attempt_id s1.task_attempt_ids) _ s1 _ h3 in
        let s2 = with_attempt r.task_attempt_id s1 in
        let (l, named, h5) =
          reads-returns (logical_task_identity p r.query_id r.task_attempt_id) s2 _ h4 in
        let s3 = with_logical l s2 in
        step-Consistent r done l s s' c same_query fresh named (
          add_fragments-Fragments messages_api p t envelopes bytes r r.fragments s3 s' c.bounded h5)

    add_results-Consistent :
        (bytes : Text) (results done : List TaskResult) (s s' : DecodeState Message)
        → Consistent messages_api p envelopes done s
        → add_results messages_api p t envelopes vane info bytes results s ≡ (ok tt, s')
        → Consistent messages_api p envelopes (reverse_onto results done) s'
    unfolding add_results
    add_results-Consistent bytes [] done s s' c h =
        subst (Consistent messages_api p envelopes done) (ap (λ x. x.1) h) c
    add_results-Consistent bytes (r ∷ results) done s s' c h =
        let (u, s1, added, h1) =
          next_of-returns (add_result messages_api p t envelopes vane info bytes r s) _ h in
        add_results-Consistent bytes results (r ∷ done) s1 s'
          (add_result-Consistent bytes r done s s1 c added) h1

    -- Results that are decoded without an exception: the count of rows is the sum of theirs, as an exact
    -- number, and fits in an idx_t; the messages are those that paimon-cpp read from the envelopes of the
    -- results' fragments, in order, and the canonical texts are what it writes of them, one by one, all
    -- different; all results are of one query, and no two are the same attempt, nor attempts of one logical task. The results are
    -- listed from the last to the first.
    pub decode_commit_results-Consistent :
        (codec : Wire) (keys : WriteKeys) (results : List TaskResult) (s' : DecodeState Message)
        → decode_commit_results messages_api p t envelopes vane info codec keys results start
          ≡ (ok tt, s')
        → Consistent messages_api p envelopes (reverse_onto results []) s'
          × Distinct s'.logical_task_ids
    unfolding decode_commit_results
    decode_commit_results-Consistent codec keys results s' h =
        let (name, named, h1) = reads-returns (write_operator_name t.write_kind) start _ h in
        let (contract, h2) =
          raise_if-passes (coordinator_contract_differs info name) _ start _ h1 in
        let (bytes, sent, h3) =
          reads-returns (serialize_transport p keys.catalog.table codec t) start _ h2 in
        let (u, s1, added, h4) =
          next_of-returns (add_results messages_api p t envelopes vane info bytes results start) _
            h3 in
        let (single, same) = raise_if-ends (not (is_empty s1.duplicate_logical_task_id)) _ s1 h4 in
        let c = add_results-Consistent bytes results [] start s1 start-Consistent added in
        subst
          (λ x.
            Consistent messages_api p envelopes (reverse_onto results []) x
            × Distinct x.logical_task_ids)
          same (c, c.logical_once (empty_text s1.duplicate_logical_task_id (true_of_not _ single)))
