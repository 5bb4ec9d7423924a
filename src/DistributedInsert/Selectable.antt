-- ===== src/DistributedInsert/Selectable.antt =====
-- A task of a query that was handed over, decoded behind others of the query.
use duckdb_paimon.Prelude.{
  ℕ, ◌+◌, ◌≤◌, ◌≡◌, refl, sym, ap, ◌∙◌, Bool, true, false, not, List, [], ◌∷◌, ◌++◌, arith, ◌⊎◌,
  inl, inr, both_false,
}
use mathlib.Core.Path.{subst}
use duckdb_paimon.Sql.{ok}
use duckdb_paimon.TablePath.{Text, text_eq}
use duckdb_paimon.DistributedScan.Matching.{text_eq_refl}
use duckdb_paimon.DistributedScan.Estimates.{index_maximum}
use duckdb_paimon.Wire.{Wire}
use duckdb_paimon.DistributedInsert.Identities.{Platform, expected_fragment_id}
use duckdb_paimon.DistributedInsert.Transport.{WriteTransport, IsReversible, serialize_transport}
use duckdb_paimon.DistributedInsert.Tasks.{WriteInfo, WriteKeys}
use duckdb_paimon.DistributedInsert.Worker.{WorkerApi}
use duckdb_paimon.DistributedInsert.DecodeState.{MessageApi, DecodeState, seen, with_fragment}
use duckdb_paimon.DistributedInsert.Handover.{
  FinishedTask, CodecsAgree, onto, Fresh, after_task, marked, fragment_id_of, result_of,
}
use duckdb_paimon.DistributedInsert.Identities.{logical_task_identity}
use duckdb_paimon.DistributedInsert.DecodeState.{
  Vane, start, is_inconsistent, query_of, duplicate_of, with_query, with_attempt, with_logical,
}
use duckdb_paimon.DistributedInsert.Decode.{add_result}
use duckdb_paimon.DistributedInsert.Completeness.{IsHanded, add_fragments_complete}

module _ {Message : Type 0} where
  abbrev pub all_messages : List (FinishedTask Message) → List Message
  all_messages [] = []
  all_messages (w ∷ tasks) = w.messages ++ all_messages tasks

  abbrev pub all_rows : List (FinishedTask Message) → ℕ
  all_rows [] = 0
  all_rows (w ∷ tasks) = w.row_count + all_rows tasks

  -- The attempts, the logical tasks and the canonical texts come once each.
  abbrev pub AllFresh : List Text → List Text → List Text → List (FinishedTask Message) → Type 0
  AllFresh attempts logicals texts [] = Unit
  AllFresh attempts logicals texts (w ∷ tasks) =
      (seen w.task.task_attempt_id attempts ≡ false)
      × (seen w.logical logicals ≡ false)
      × Fresh texts w.texts
      × AllFresh (w.task.task_attempt_id ∷ attempts) (w.logical ∷ logicals) (onto w.texts texts)
          tasks

-- The identity of the fragment of an attempt tells the attempt.
fragment_ids_differ :
    (operation x y : Text)
    → text_eq x y ≡ false
    → text_eq (expected_fragment_id operation x) (expected_fragment_id operation y) ≡ false
unfolding expected_fragment_id
fragment_ids_differ [] x y h = h
fragment_ids_differ (c ∷ operation) x y h = ground (arith, fragment_ids_differ operation x y h)

module _ {Writer Message : Type 0} (api : WorkerApi Writer Message)
    (messages_api : MessageApi Message) (p : Platform) (t : WriteTransport) (info : WriteInfo)
    (envelopes : Wire) (codec : Wire) (keys : WriteKeys) (vane : Vane) (query_id : Text) where
  abbrev Handed : FinishedTask Message → Type 0
  Handed = IsHanded api messages_api p t info envelopes codec keys

  -- What holds of every task of the query: it was handed over, and Vane makes a valid result of it.
  pub record IsSelectable (w : FinishedTask Message) : Type 0 where
    pub handed : Handed w
    pub of_query : w.task.query_id ≡ query_id
    pub valid : vane.validate_result (result_of info w) ≡ ok tt
    pub named : logical_task_identity p w.task.query_id w.task.task_attempt_id ≡ ok w.logical

  -- Vane finds a capability and a codec the same as themselves.
  pub record ComparesSelf : Type 0 where
    pub capability : vane.same_capability info.capability info.capability ≡ true
    pub fragment_codec : vane.same_codec info.fragment_codec info.fragment_codec ≡ true

  -- The state before a task: of this query or of none so far, with no logical task twice, and with the
  -- fragments of the attempts so far only.
  pub record IsOpen (s : DecodeState Message) : Type 0 where
    pub query : (s.query_id ≡ []) ⊎ (s.query_id ≡ query_id)
    pub no_duplicate : s.duplicate_logical_task_id ≡ []
    pub fragments :
        (a : Text)
        → seen a s.task_attempt_ids ≡ false
        → seen (expected_fragment_id t.operation_id a) s.fragment_ids ≡ false

  unfoldable pub after_result : FinishedTask Message → DecodeState Message → DecodeState Message
  after_result w s = after_task w (
      marked w.messages (fragment_id_of t w) (
        with_logical w.logical
          (with_attempt w.task.task_attempt_id (with_query w.task.query_id s))))

  consistent_query : (known q : Text) → (known ≡ []) ⊎ (known ≡ q) → is_inconsistent known q ≡ false
  consistent_query [] q h = refl
  consistent_query (c ∷ known) q (inl e) = cc
  consistent_query (c ∷ known) q (inr e) = rw (sym e) (ap not (text_eq_refl (c ∷ known)))

  query_known :
      (w : FinishedTask Message) (s : DecodeState Message)
      → w.task.query_id ≡ query_id
      → (s.query_id ≡ []) ⊎ (s.query_id ≡ query_id)
      → (s.query_id ≡ []) ⊎ (s.query_id ≡ w.task.query_id)
  query_known w s e (inl none_known) = inl none_known
  query_known w s e (inr known) = inr (known ∙ sym e)

  pub add_result_complete :
      (w : FinishedTask Message) (bytes : Text) (s : DecodeState Message)
      → CodecsAgree api messages_api
      → IsReversible codec t
      → ComparesSelf
      → serialize_transport p keys.catalog.table codec t ≡ ok bytes
      → IsSelectable w
      → IsOpen s
      → seen w.task.task_attempt_id s.task_attempt_ids ≡ false
      → Fresh s.canonical_messages w.texts
      → s.row_count + w.row_count ≤ index_maximum
      → add_result messages_api p t envelopes vane info bytes (result_of info w) s
        ≡ (ok tt, after_result w s)
  unfolding add_result after_result with_query with_attempt with_logical
  add_result_complete w bytes s agree reversible self sent h open_state new fresh fits =
      rw
        (
          h.valid,
          self.capability,
          self.fragment_codec,
          consistent_query s.query_id w.task.query_id (query_known w s h.of_query open_state.query),
          new,
          h.named,
        )
        (add_fragments_complete api messages_api p t info envelopes codec keys w bytes
          (with_logical w.logical
            (with_attempt w.task.task_attempt_id (with_query w.task.query_id s)))
          agree reversible sent h.handed (open_state.fragments w.task.task_attempt_id new) fresh
          fits)

  pub start-IsOpen : IsOpen start
  unfolding seen
  start-IsOpen = record { query = inl refl; no_duplicate = refl; fragments = λ a e. refl }

  query_next :
      (known q : Text)
      → (known ≡ []) ⊎ (known ≡ query_id)
      → q ≡ query_id
      → (query_of known q ≡ []) ⊎ (query_of known q ≡ query_id)
  query_next [] q h e = inr e
  query_next (c ∷ known) q h e = h

  duplicate_next :
      (d : Text) (repeated : Bool) (l : Text)
      → d ≡ []
      → repeated ≡ false
      → duplicate_of d repeated l ≡ []
  duplicate_next [] true l h e = cc
  duplicate_next [] false l h e = refl
  duplicate_next (c ∷ d) repeated l h e = cc

  fragments_next :
      (messages : List Message) (attempt : Text) (attempts : List Text) (s : DecodeState Message)
      → ((a : Text)
          → seen a attempts ≡ false
          → seen (expected_fragment_id t.operation_id a) s.fragment_ids ≡ false)
      → (a : Text) → seen a (attempt ∷ attempts) ≡ false
      → seen
          (expected_fragment_id t.operation_id a)
          (marked messages (expected_fragment_id t.operation_id attempt) s).fragment_ids
        ≡ false
  unfolding seen with_fragment
  fragments_next [] attempt attempts s h a new =
      h a (both_false (text_eq attempt a) (seen a attempts) new).1
  fragments_next (m ∷ messages) attempt attempts s h a new =
      let (other, later) = both_false (text_eq attempt a) (seen a attempts) new in
      rw (fragment_ids_differ t.operation_id attempt a other) (h a later)

  -- The other fields are those of before.
  pub marked_same :
      (messages : List Message) (id : Text) (s : DecodeState Message)
      → ((marked messages id s).query_id ≡ s.query_id)
        × ((marked messages id s).duplicate_logical_task_id ≡ s.duplicate_logical_task_id)
        × ((marked messages id s).task_attempt_ids ≡ s.task_attempt_ids)
        × ((marked messages id s).logical_task_ids ≡ s.logical_task_ids)
        × ((marked messages id s).canonical_messages ≡ s.canonical_messages)
        × ((marked messages id s).messages ≡ s.messages)
        × ((marked messages id s).row_count ≡ s.row_count)
  unfolding with_fragment
  marked_same [] id s = (refl, refl, refl, refl, refl, refl, refl)
  marked_same (m ∷ messages) id s = (refl, refl, refl, refl, refl, refl, refl)

  pub after_result-IsOpen :
      (w : FinishedTask Message) (s : DecodeState Message)
      → IsSelectable w
      → IsOpen s
      → seen w.logical s.logical_task_ids ≡ false
      → IsOpen (after_result w s)
  unfolding after_result with_logical with_attempt with_query
  after_result-IsOpen w s h open_state new =
      let before =
        with_logical w.logical
          (with_attempt w.task.task_attempt_id (with_query w.task.query_id s)) in
      let same = marked_same w.messages (fragment_id_of t w) before in
      record {
        query =
            subst (λ x. (x ≡ []) ⊎ (x ≡ query_id)) (sym same.0)
              (query_next s.query_id w.task.query_id open_state.query h.of_query);
        no_duplicate =
            same.1
            ∙ duplicate_next s.duplicate_logical_task_id (seen w.logical s.logical_task_ids)
                w.logical open_state.no_duplicate new;
        fragments = λ a e.
            fragments_next w.messages w.task.task_attempt_id s.task_attempt_ids before
              open_state.fragments a (subst (λ xs. seen a xs ≡ false) same.2 e);
      }
