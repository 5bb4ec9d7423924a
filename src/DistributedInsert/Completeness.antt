-- ===== src/DistributedInsert/Completeness.antt =====
-- What the workers of a query hand over, one task each, is decoded by the coordinator without an exception.
use duckdb_paimon.Prelude.{
  ℕ, ◌+◌, ◌≤◌, ◌≡◌, refl, sym, ap, ap₂, ◌∙◌, true, false, some, List, [], ◌∷◌, map, arith, eqb, ltb,
  length, is_empty,
}
use mathlib.Core.Path.{subst}
use mathlib.Core.List.{append-nil}
use duckdb_paimon.Prelude.Int.{pos, ltb_ℤ}
use duckdb_paimon.Sql.{ok}
use duckdb_paimon.Paimon.{value}
use duckdb_paimon.TablePath.{Text}
use duckdb_paimon.DistributedScan.Estimates.{index_maximum}
use duckdb_paimon.Wire.{Wire}
use duckdb_paimon.DistributedInsert.Identities.{
  Platform, checked_add, checked_add-IsExact, expected_fragment_id,
}
use duckdb_paimon.DistributedInsert.Transport.{
  WriteTransport, IsReversible, serialize_transport, validate_write_transport,
}
use duckdb_paimon.DistributedInsert.Transport.RoundTrip.{serialized, write_fields-ne}
use duckdb_paimon.DistributedInsert.CommitEnvelope.{
  IsLossless, deserialize_envelope-serialize_envelope,
}
use duckdb_paimon.DistributedInsert.Tasks.{WriteInfo, WriteKeys}
use duckdb_paimon.DistributedInsert.Worker.{WorkerApi, envelope_of, fragment_of}
use duckdb_paimon.DistributedInsert.DecodeState.{
  MessageApi, DecodeState, seen, with_fragment, with_rows, bad_fragment, envelope_differs,
  codec_limit,
}
use duckdb_paimon.DistributedInsert.Decode.{decoded_list, add_envelope, add_fragments}
use duckdb_paimon.DistributedInsert.Publishing.{HandsOver}
use duckdb_paimon.DistributedInsert.Handover.{
  FinishedTask, CodecsAgree, Fresh, Canonical, add_messages_complete, global_of, after_task, marked,
  fragment_id_of, envelope_for, envelope-valid, result_of, envelope-matches, fragment-fits,
}

module _ {Writer Message : Type 0} (api : WorkerApi Writer Message)
    (messages_api : MessageApi Message) (p : Platform) (t : WriteTransport) (info : WriteInfo)
    (envelopes : Wire) where
  length-some : (ms : List Message) → length (map some ms) ≡ length ms
  length-some [] = refl
  length-some (m ∷ ms) = omega (arith, length-some ms)

  add_envelope_complete :
      (w : FinishedTask Message) (m : Message) (ms : List Message)
      (transport_bytes message_bytes : Text) (s : DecodeState Message)
      → CodecsAgree api messages_api
      → w.messages ≡ m ∷ ms
      → api.serialize_list w.messages ≡ value message_bytes
      → ltb codec_limit (length message_bytes) ≡ false
      → Canonical messages_api w.messages w.texts
      → Fresh s.canonical_messages w.texts
      → s.row_count + w.row_count ≤ index_maximum
      → add_envelope messages_api p t transport_bytes
          (result_of info w)
          (fragment_of api envelopes (global_of api p t w) w.task transport_bytes message_bytes)
          (envelope_for api p t w transport_bytes message_bytes)
          s
        ≡ (ok tt, after_task w s)
  unfolding add_envelope decoded_list with_rows envelope_of
  add_envelope_complete w m ms transport_bytes message_bytes s agree filled sent short canonical
        fresh fits =
      let total : checked_add s.row_count w.row_count
            "Distributed Paimon INSERT selected row count exceeds idx_t"
          ≡ ok (s.row_count + w.row_count) =
        (checked_add-IsExact s.row_count w.row_count _ (omega arith)).1 fits in
      let read : messages_api.deserialize_list api.current_version message_bytes
          ≡ value (map some w.messages) =
        ap (λ v. messages_api.deserialize_list v message_bytes) agree.same_version
        ∙ agree.read_written w.messages message_bytes sent in
      let count : eqb (length (map some w.messages)) (length w.messages) ≡ true =
        ground (arith, length-some w.messages) in
      let some_there : is_empty (map some w.messages) ≡ false = rw filled refl in
      rw (
        envelope-matches api p t info envelopes w transport_bytes message_bytes
            messages_api.current_version agree.same_version,
        short,
        read,
        count,
        some_there,
        add_messages_complete messages_api w.messages w.texts s canonical fresh,
        total,
      )

  module _ (codec : Wire) (keys : WriteKeys) where
    -- What is known of a finished task: how it ended, and that the code outside accepts its data.
    pub record IsHanded (w : FinishedTask Message) : Type 0 where
      pub ended :
          HandsOver api p codec envelopes keys (global_of api p t w) w.task w.messages w.fragments
      pub canonical : Canonical messages_api w.messages w.texts
      pub lossless :
          (transport_bytes message_bytes : Text)
          → IsLossless envelopes (envelope_for api p t w transport_bytes message_bytes)
      pub query : is_empty w.task.query_id ≡ false
      pub attempt : is_empty w.task.task_attempt_id ≡ false
      pub short :
          (bytes : Text)
          → api.serialize_list w.messages ≡ value bytes
          → ltb codec_limit (length bytes) ≡ false

    no_texts : (texts : List Text) → Canonical messages_api [] texts → texts ≡ []
    no_texts [] c = refl
    no_texts (x ∷ texts) c = absurd c

    nothing_added :
        (w : FinishedTask Message) (s : DecodeState Message)
        → w.messages ≡ []
        → w.texts ≡ []
        → w.row_count ≡ 0
        → s ≡ after_task w s
    nothing_added w s no_messages no_text no_rows =
        rw (no_messages, no_text, no_rows)
          (ap₂ (grown s) (sym (append-nil s.messages)) (omega arith))
      where
        grown : DecodeState Message → List Message → ℕ → DecodeState Message
        grown s ms n = record s { messages = ms; row_count = n }

    pub sent_filled :
        (bytes : Text)
        → IsReversible codec t
        → serialize_transport p keys.catalog.table codec t ≡ ok bytes
        → (validate_write_transport p keys.catalog.table t ≡ ok tt) × (is_empty bytes ≡ false)
    sent_filled bytes reversible h =
        let (valid, e) = serialized p keys.catalog.table codec t bytes h in
        (valid, ap is_empty (sym e) ∙ write_fields-ne codec t reversible.faithful)

    pub add_fragments_complete :
        (w : FinishedTask Message) (transport_bytes : Text) (s : DecodeState Message)
        → CodecsAgree api messages_api
        → IsReversible codec t
        → serialize_transport p keys.catalog.table codec t ≡ ok transport_bytes
        → IsHanded w
        → seen (fragment_id_of t w) s.fragment_ids ≡ false
        → Fresh s.canonical_messages w.texts
        → s.row_count + w.row_count ≤ index_maximum
        → add_fragments messages_api p t envelopes transport_bytes (result_of info w) w.fragments s
          ≡ (ok tt, after_task w (marked w.messages (fragment_id_of t w) s))
    unfolding add_fragments with_fragment fragment_of bad_fragment expected_fragment_id add_envelope
        envelope_differs
    add_fragments_complete w transport_bytes s agree reversible sent handed new fresh fits =
        by_messages w.messages refl handed.ended
      where
        by_messages :
            (ms : List Message)
            → w.messages ≡ ms
            → HandsOver api p codec envelopes keys (global_of api p t w) w.task ms w.fragments
            → add_fragments messages_api p t envelopes transport_bytes
                (result_of info w)
                w.fragments
                s
              ≡ (ok tt, after_task w (marked ms (fragment_id_of t w) s))
        by_messages [] e (none_there, no_rows) =
            let no_rows' : eqb w.row_count 0 ≡ true = ground arith in
            let no_text : w.texts ≡ [] =
              no_texts w.texts
                (subst (λ ms. Canonical messages_api ms w.texts) e handed.canonical) in
            rw (none_there, no_rows') (ap (λ x. (ok tt, x)) (nothing_added w s e no_text no_rows))
        by_messages (m ∷ ms) e (tb, mb, some_rows, sent', list, made) =
            let same : tb ≡ transport_bytes = cc in
            let (valid, sent_some) = sent_filled transport_bytes reversible sent in
            let made' =
              made
              ∙ ap (λ x. fragment_of api envelopes (global_of api p t w) w.task x mb ∷ []) same in
            let list' : api.serialize_list w.messages ≡ value mb = ap api.serialize_list e ∙ list in
            let read =
              (deserialize_envelope-serialize_envelope envelopes p
                (envelope_for api p t w transport_bytes mb) (handed.lossless transport_bytes mb)
                (envelope-valid api p t keys w transport_bytes mb valid handed.query handed.attempt
                  (ap (λ v. ltb_ℤ (pos 0) v) agree.same_version ∙ agree.positive) (ap is_empty e)
                  some_rows sent_some (agree.written_filled w.messages mb list'))).0 in
            rw (made', fragment-fits api p t info envelopes w transport_bytes mb, new, read)
              (add_envelope_complete w m ms transport_bytes mb
                (with_fragment (fragment_id_of t w) s) agree e list' (handed.short mb list')
                handed.canonical fresh fits)
