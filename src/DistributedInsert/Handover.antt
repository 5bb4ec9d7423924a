-- ===== src/DistributedInsert/Handover.antt =====
-- From the workers to the coordinator: one fragment that a worker hands over, decoded by the coordinator.
use duckdb_paimon.Prelude.{
  ℕ, ◌+◌, ◌≡◌, ◌≢◌, refl, sym, ap, ◌∙◌, true, false, String, eq_refl, some, List, [], ◌∷◌, ◌++◌,
  map, Map, arith, is_empty, same_bool_refl,
}
use mathlib.Core.List.{append-nil, append_assoc}
use duckdb_paimon.Prelude.Int.{ℤ, pos, ltb_ℤ}
use duckdb_paimon.Sql.{ok}
use duckdb_paimon.Paimon.{value}
use duckdb_paimon.TablePath.{Text}
use duckdb_paimon.DistributedScan.Matching.{text_eq_refl}
use duckdb_paimon.Wire.{Wire}
use duckdb_paimon.DistributedInsert.Identities.{Platform, worker_commit_user, expected_fragment_id}
use duckdb_paimon.DistributedInsert.Transport.{
  WriteTransport, incomplete_target, validate_write_transport,
}
use duckdb_paimon.DistributedInsert.Transport.RoundTrip.{validated}
use duckdb_paimon.DistributedInsert.CommitEnvelope.{CommitEnvelope, invalid_envelope}
use duckdb_paimon.DistributedInsert.Tasks.{
  TaskContext, Fragment, WriteInfo, WriteKeys, WorkerGlobal,
}
use duckdb_paimon.DistributedInsert.Worker.{WorkerApi, envelope_of, fragment_of}
use duckdb_paimon.DistributedInsert.DecodeState.{
  TaskResult, MessageApi, DecodeState, seen, with_fragment, with_message, bad_fragment,
  envelope_differs,
}
use duckdb_paimon.DistributedInsert.Decode.{canonical_of, add_messages}

-- A finished task of a worker, with its fragments, the canonical texts of its messages, and the identity of
-- its logical task.
pub record FinishedTask (Message : Type 0) : Type 0 where
  pub task : TaskContext
  pub options : Map String
  pub next_write_id : ℕ
  pub part_col_idxs : List ℕ
  pub messages : List Message
  pub row_count : ℕ
  pub fragments : List Fragment
  pub texts : List Text
  pub logical : Text

-- The workers' codec of message lists and the coordinator's agree: what was written is read back, with no
-- null message, and is not empty; the version is positive.
pub record CodecsAgree {Writer Message : Type 0} (api : WorkerApi Writer Message)
    (messages_api : MessageApi Message) : Type 0 where
  pub same_version : api.current_version ≡ messages_api.current_version
  pub positive : ltb_ℤ (pos 0) messages_api.current_version ≡ true
  pub read_written :
      (messages : List Message) (bytes : Text)
      → api.serialize_list messages ≡ value bytes
      → messages_api.deserialize_list messages_api.current_version bytes ≡ value (map some messages)
  pub written_filled :
      (messages : List Message) (bytes : Text)
      → api.serialize_list messages ≡ value bytes
      → is_empty bytes ≡ false

-- The texts, added one by one to those before.
abbrev pub onto : List Text → List Text → List Text
onto [] acc = acc
onto (x ∷ xs) acc = onto xs (x ∷ acc)

-- No text is among those before it.
abbrev pub Fresh : List Text → List Text → Type 0
Fresh acc [] = Unit
Fresh acc (x ∷ xs) = (seen x acc ≡ false) × Fresh (x ∷ acc) xs

module _ {Message : Type 0} where
  abbrev pub after_messages : List Message → List Text → DecodeState Message → DecodeState Message
  after_messages messages texts s = record s {
    canonical_messages = onto texts s.canonical_messages;
    messages = s.messages ++ messages;
  }

  -- The state after the messages and the rows of a task.
  abbrev pub after_task : FinishedTask Message → DecodeState Message → DecodeState Message
  after_task w s = record (after_messages w.messages w.texts s) {
    row_count = s.row_count + w.row_count;
  }

  -- The fragment's identity is kept if there is one.
  abbrev pub marked : List Message → Text → DecodeState Message → DecodeState Message
  marked [] id s = s
  marked (m ∷ messages) id s = with_fragment id s

  abbrev pub fragment_id_of : WriteTransport → FinishedTask Message → Text
  fragment_id_of t w = expected_fragment_id t.operation_id w.task.task_attempt_id

  -- The result that Vane makes of a finished task.
  abbrev pub result_of : WriteInfo → FinishedTask Message → TaskResult
  result_of info w = record {
    capability = info.capability;
    fragment_codec = info.fragment_codec;
    query_id = w.task.query_id;
    task_attempt_id = w.task.task_attempt_id;
    fragments = w.fragments;
    row_count = w.row_count;
    byte_count = 0;
  }

module _ {Message : Type 0} (messages_api : MessageApi Message) where
  -- The texts are the canonical forms of the messages, one by one.
  abbrev pub Canonical : List Message → List Text → Type 0
  Canonical [] [] = Unit
  Canonical [] (x ∷ xs) = ⊥
  Canonical (m ∷ messages) [] = ⊥
  Canonical (m ∷ messages) (x ∷ xs) = (messages_api.serialize m ≡ value x) × Canonical messages xs

  pub add_messages_complete :
      (messages : List Message) (texts : List Text) (s : DecodeState Message)
      → Canonical messages texts
      → Fresh s.canonical_messages texts
      → add_messages messages_api (map some messages) s ≡ (ok tt, after_messages messages texts s)
  unfolding add_messages canonical_of with_message
  add_messages_complete [] [] s c f =
      ap (λ ms. (ok tt, record s { messages = ms })) (sym (append-nil s.messages))
  add_messages_complete [] (x ∷ xs) s c f = absurd c
  add_messages_complete (m ∷ messages) [] s c f = absurd c
  add_messages_complete (m ∷ messages) (x ∷ xs) s (e, c) (new, f) =
      rw (e, new)
        (add_messages_complete messages xs
            (record s {
              canonical_messages = x ∷ s.canonical_messages;
              messages = s.messages ++ m ∷ [];
            })
            c f
          ∙ ap
              (λ ms. (
                ok tt,
                record s { canonical_messages = onto xs (x ∷ s.canonical_messages); messages = ms },
              ))
              (append_assoc s.messages (m ∷ []) messages))

module _ {Writer Message : Type 0} (api : WorkerApi Writer Message) (p : Platform)
    (t : WriteTransport) where
  -- The state of a finished task, whose identity is the one that it was started with.
  abbrev pub global_of : FinishedTask Message → WorkerGlobal Message
  global_of w = record {
    transport = t;
    options = w.options;
    query_id = w.task.query_id;
    task_attempt_id = w.task.task_attempt_id;
    writer_commit_user = worker_commit_user p t.operation_id w.task.query_id w.task.task_attempt_id;
    next_write_id = w.next_write_id;
    messages = w.messages;
    row_count = w.row_count;
    part_col_idxs = w.part_col_idxs;
    finalized = true;
  }

  abbrev pub envelope_for : FinishedTask Message → Text → Text → CommitEnvelope
  envelope_for w transport_bytes message_bytes =
      envelope_of api (global_of w) w.task transport_bytes message_bytes

  user_filled : (q a : Text) → is_empty (worker_commit_user p t.operation_id q a) ≡ false
  unfolding worker_commit_user
  user_filled q a = refl

  pub envelope-valid :
      (keys : WriteKeys) (w : FinishedTask Message) (transport_bytes message_bytes : Text)
      → validate_write_transport p keys.catalog.table t ≡ ok tt
      → is_empty w.task.query_id ≡ false
      → is_empty w.task.task_attempt_id ≡ false
      → ltb_ℤ (pos 0) api.current_version ≡ true
      → is_empty w.messages ≡ false
      → w.row_count ≢ 0
      → is_empty transport_bytes ≡ false
      → is_empty message_bytes ≡ false
      → invalid_envelope p (envelope_for w transport_bytes message_bytes) ≡ false
  unfolding invalid_envelope envelope_of incomplete_target
  envelope-valid keys w transport_bytes message_bytes valid hq ha hv hm hr ht hb =
      let (complete, named, snapshot, parts) = validated p keys.catalog.table t valid in
      ground (arith, user_filled w.task.query_id w.task.task_attempt_id)

  pub envelope-matches :
      (info : WriteInfo) (envelopes : Wire) (w : FinishedTask Message)
      (transport_bytes message_bytes : Text) (version : ℤ)
      → api.current_version ≡ version
      → envelope_differs p version t transport_bytes
          (result_of info w)
          (fragment_of api envelopes (global_of w) w.task transport_bytes message_bytes)
          (envelope_for w transport_bytes message_bytes)
        ≡ false
  unfolding envelope_differs envelope_of fragment_of
  envelope-matches info envelopes w transport_bytes message_bytes version same = ground (
    arith,
    text_eq_refl t.operation_id,
    eq_refl t.table_uuid,
    eq_refl t.table_path,
    text_eq_refl t.schema_fingerprint,
    same_bool_refl t.has_snapshot,
    text_eq_refl w.task.query_id,
    text_eq_refl w.task.task_attempt_id,
    text_eq_refl (worker_commit_user p t.operation_id w.task.query_id w.task.task_attempt_id),
    text_eq_refl transport_bytes,
  )

  pub fragment-fits :
      (info : WriteInfo) (envelopes : Wire) (w : FinishedTask Message)
      (transport_bytes message_bytes : Text)
      → bad_fragment t
          (result_of info w)
          (fragment_of api envelopes (global_of w) w.task transport_bytes message_bytes)
        ≡ false
  unfolding bad_fragment fragment_of
  fragment-fits info envelopes w transport_bytes message_bytes =
      rw (text_eq_refl (expected_fragment_id t.operation_id w.task.task_attempt_id)) refl
