-- ===== src/DistributedInsert/Decoding.antt =====
-- What the coordinator has when it has decoded the results of the selected tasks.
use duckdb_paimon.Prelude.{
  ℕ, ◌+◌, ◌≤◌, ◌≡◌, refl, sym, ap, ◌∙◌, false, not, ◌||◌, Option, none, some, List, [], ◌∷◌, ◌++◌,
  map, arith, eqb, ltb, length, is_empty, ap₂,
}
use mathlib.Core.Path.{subst}
use mathlib.Core.List.{append-nil, append_assoc, map-append}
use duckdb_paimon.Prelude.Int.{ℤ}
use duckdb_paimon.Sql.{ok}
use duckdb_paimon.Paimon.{Outcome, value, status}
use duckdb_paimon.TablePath.{Text}
use duckdb_paimon.DistributedScan.Estimates.{index_maximum}
use duckdb_paimon.Wire.{Wire}
use duckdb_paimon.DistributedInsert.Actions.{
  reads-returns, raise_if-passes, raise_if-ends, next_of-returns,
}
use duckdb_paimon.DistributedInsert.Identities.{Platform, checked_add, checked_add-IsExact}
use duckdb_paimon.DistributedInsert.Transport.{WriteTransport}
use duckdb_paimon.DistributedInsert.CommitEnvelope.{CommitEnvelope, deserialize_envelope}
use duckdb_paimon.DistributedInsert.Tasks.{Fragment}
use duckdb_paimon.DistributedInsert.DecodeState.{
  TaskResult, MessageApi, DecodeState, seen, with_fragment, with_message, with_rows,
  envelope_differs, codec_limit, bad_fragment,
}
use duckdb_paimon.DistributedInsert.Decode.{
  canonical_of, decoded_list, add_messages, add_envelope, add_fragments,
}

-- No text twice.
abbrev pub Distinct : List Text → Type 0
Distinct [] = Unit
Distinct (x ∷ xs) = (seen x xs ≡ false) × Distinct xs

-- Texts that were put in front one after the other, from the first on.
abbrev pub oldest_first : List Text → List Text
oldest_first [] = []
oldest_first (x ∷ xs) = oldest_first xs ++ (x ∷ [])

module _ {Message : Type 0} (messages_api : MessageApi Message) where
  -- The texts are what the codec writes of the messages, one by one.
  abbrev pub Spelled : List Message → List Text → Type 0
  Spelled messages texts = map messages_api.serialize messages ≡ map value (oldest_first texts)

  canonical-value : (x : Outcome Text) (text : Text) → canonical_of x ≡ ok text → x ≡ value text
  unfolding canonical_of
  canonical-value (value y) text h = cc
  canonical-value (status e) text h = cc

  append-Spelled :
      (messages : List Message) (texts : List Text) (m : Message) (text : Text)
      → Spelled messages texts
      → messages_api.serialize m ≡ value text
      → Spelled (messages ++ (m ∷ [])) (text ∷ texts)
  append-Spelled messages texts m text h e =
      rw
        (
          map-append messages_api.serialize messages (m ∷ []),
          map-append value (oldest_first texts) (text ∷ []),
          h,
          e,
        )
        refl

  -- A state after messages were added.
  abbrev Added : DecodeState Message → List (Option Message) → DecodeState Message → Type 0
  Added s given s' =
      (texts : List Text) × (messages : List Message) × (s'
        ≡ record s { canonical_messages = texts; messages = s.messages ++ messages })
      × (given ≡ map some messages)
      × (length texts ≡ length s.canonical_messages + length messages)
      × (Distinct s.canonical_messages → Distinct texts)
      × (Spelled s.messages s.canonical_messages → Spelled (s.messages ++ messages) texts)

  -- A state after the fragments of a result were added, whose messages are as said.
  abbrev pub Fragments :
      (List Message → Type 0) → ℕ → DecodeState Message → DecodeState Message → Type 0
  Fragments Own rows s s' =
      (ids : List Text) × (texts : List Text) × (messages : List Message) × (s' ≡ record s {
        fragment_ids = ids;
        canonical_messages = texts;
        messages = s.messages ++ messages;
        row_count = s.row_count + rows;
      })
      × (length texts ≡ length s.canonical_messages + length messages)
      × (Distinct s.canonical_messages → Distinct texts)
      × (s.row_count + rows ≤ index_maximum)
      × (Spelled s.messages s.canonical_messages → Spelled (s.messages ++ messages) texts)
      × Own messages

  -- The messages are those that an envelope's bytes hold.
  abbrev pub Held : CommitEnvelope → List Message → Type 0
  Held e messages =
      messages_api.deserialize_list e.commit_message_version e.serialized_messages
      ≡ value (map some messages)

  -- The messages of a result: none without a fragment, and otherwise those of its one fragment's envelope.
  abbrev pub Carried : Platform → Wire → List Fragment → List Message → Type 0
  Carried p envelopes [] messages = messages ≡ []
  Carried p envelopes (fragment ∷ []) messages =
      (e : CommitEnvelope) × (deserialize_envelope envelopes p fragment.payload ≡ ok e)
      × Held e messages
  Carried p envelopes (fragment ∷ other ∷ fragments) messages = ⊥

  add_messages-Added :
      (given : List (Option Message)) (s s' : DecodeState Message)
      → add_messages messages_api given s ≡ (ok tt, s')
      → Added s given s'
  unfolding add_messages with_message
  add_messages-Added [] s s' h =
      let e : s ≡ s' = cc in
      (
        s.canonical_messages,
        [],
        sym e ∙ ap (λ ms. record s { messages = ms }) (sym (append-nil s.messages)),
        refl,
        omega arith,
        λ d. d,
        λ l. rw (append-nil s.messages) l,
      )
  add_messages-Added (none ∷ given) s s' h = cc
  add_messages-Added (some m ∷ given) s s' h =
      let (text, e, h1) = reads-returns (canonical_of (messages_api.serialize m)) s _ h in
      let (fresh, h2) = raise_if-passes (seen text s.canonical_messages) _ s _ h1 in
      let (texts, messages, same, all, count, distinct, spelled) =
        add_messages-Added given (with_message text m s) s' h2 in
      (
        texts,
        m ∷ messages,
        same
            ∙ ap (λ ms. record s { canonical_messages = texts; messages = ms })
                (append_assoc s.messages (m ∷ []) messages),
        ap (λ ms. some m ∷ ms) all,
        omega (arith, count),
        λ d. distinct (fresh, d),
        λ l.
            subst (λ ms. Spelled ms texts) (append_assoc s.messages (m ∷ []) messages)
              (spelled (
                append-Spelled s.messages s.canonical_messages m text l
                  (canonical-value (messages_api.serialize m) text e))),
      )

  list-decoded :
      (x : Outcome (List (Option Message))) (given : List (Option Message))
      → decoded_list x ≡ ok given
      → x ≡ value given
  unfolding decoded_list
  list-decoded (value y) given h = cc
  list-decoded (status e) given h = cc

  envelope-rows :
      (p : Platform) (version : ℤ) (t : WriteTransport) (bytes : Text) (result : TaskResult)
      (fragment : Fragment) (e : CommitEnvelope)
      → envelope_differs p version t bytes result fragment e ≡ false
      → e.row_count ≡ result.row_count
  unfolding envelope_differs
  envelope-rows p version t bytes result fragment e h = ground arith

  module _ (p : Platform) (t : WriteTransport) where
    -- The rows of an envelope after its messages.
    sum-Fragments :
        (Own : List Message → Type 0) (rows n : ℕ) (texts : List Text) (messages : List Message)
        (s s1 s' : DecodeState Message)
        → s.row_count ≤ index_maximum
        → s1 ≡ record s { canonical_messages = texts; messages = s.messages ++ messages }
        → length texts ≡ length s.canonical_messages + length messages
        → (Distinct s.canonical_messages → Distinct texts)
        → checked_add s1.row_count n "Distributed Paimon INSERT selected row count exceeds idx_t"
          ≡ ok rows
        → with_rows rows s1 ≡ s'
        → (Spelled s.messages s.canonical_messages → Spelled (s.messages ++ messages) texts)
        → Own messages
        → Fragments Own n s s'
    unfolding with_rows
    sum-Fragments Own rows n texts messages s s1 s' small same count distinct sum made spelled own =
        let before : s1.row_count ≡ s.row_count = ap (λ x. x.row_count) same in
        let fits : s1.row_count ≤ index_maximum = omega (arith, before) in
        let (exact, bound) = (checked_add-IsExact s1.row_count n _ fits).0 rows sum in
        let total : rows ≡ s.row_count + n = omega (arith, exact, before) in
        (
          s.fragment_ids,
          texts,
          messages,
          sym made ∙ ap₂ with_rows total same,
          count,
          distinct,
          omega (arith, total, bound),
          spelled,
          own,
        )

    add_envelope-Fragments :
        (bytes : Text) (result : TaskResult) (fragment : Fragment) (e : CommitEnvelope)
        (s s' : DecodeState Message)
        → s.row_count ≤ index_maximum
        → add_envelope messages_api p t bytes result fragment e s ≡ (ok tt, s')
        → Fragments (Held e) result.row_count s s'
    unfolding add_envelope with_rows decoded_list
    add_envelope-Fragments bytes result fragment e s s' small h =
        let (same, h1) =
          raise_if-passes
            (envelope_differs p messages_api.current_version t bytes result fragment e) _ s _ h in
        let (short, h2) =
          raise_if-passes (ltb codec_limit (length e.serialized_messages)) _ s _ h1 in
        let (given, read, h3) =
          reads-returns
            (decoded_list
              (messages_api.deserialize_list e.commit_message_version e.serialized_messages))
            s _ h2 in
        let (agreed, h4) =
          raise_if-passes (not (eqb (length given) e.message_count) || is_empty given) _ s _ h3 in
        let (u, s1, added, h5) = next_of-returns (add_messages messages_api given s) _ h4 in
        let (texts, messages, same1, all, count, distinct, spelled) =
          add_messages-Added given s s1 added in
        let (rows, sum, h6) =
          reads-returns
            (checked_add s1.row_count e.row_count
              "Distributed Paimon INSERT selected row count exceeds idx_t")
            s1 _ h5 in
        subst (λ n. Fragments (Held e) n s s')
          (envelope-rows p messages_api.current_version t bytes result fragment e same)
          (sum-Fragments (Held e) rows e.row_count texts messages s s1 s' small same1 count distinct
            sum (ap (λ x. x.1) h6) spelled
            (list-decoded
                (messages_api.deserialize_list e.commit_message_version e.serialized_messages) given
                read
              ∙ ap value all))

    module _ (envelopes : Wire) where
      pub add_fragments-Fragments :
          (bytes : Text) (result : TaskResult) (fragments : List Fragment)
          (s s' : DecodeState Message)
          → s.row_count ≤ index_maximum
          → add_fragments messages_api p t envelopes bytes result fragments s ≡ (ok tt, s')
          → Fragments (Carried p envelopes fragments) result.row_count s s'
      unfolding add_fragments with_fragment
      add_fragments-Fragments bytes result [] s s' small h =
          let (empty, e) =
            raise_if-ends (not (eqb result.row_count 0) || not (eqb result.byte_count 0)) _ s h in
          let no_rows : result.row_count ≡ 0 = ground arith in
          let grown : List Message → ℕ → DecodeState Message =
            λ ms n. record s { messages = ms; row_count = n } in
          (
            s.fragment_ids,
            s.canonical_messages,
            [],
            sym e ∙ ap₂ grown (sym (append-nil s.messages)) (omega (arith, no_rows)),
            omega arith,
            λ d. d,
            omega (arith, no_rows),
            λ l. rw (append-nil s.messages) l,
            refl,
          )
      add_fragments-Fragments bytes result (fragment ∷ []) s s' small h =
          let (good, h1) =
            raise_if-passes
              (bad_fragment t result fragment || seen fragment.fragment_id s.fragment_ids) _ s _
              h in
          let (e, read, h2) =
            reads-returns (deserialize_envelope envelopes p fragment.payload)
              (with_fragment fragment.fragment_id s) _ h1 in
          let (ids, texts, messages, same, count, distinct, bound, spelled, held) =
            add_envelope-Fragments bytes result fragment e (with_fragment fragment.fragment_id s) s'
              small h2 in
          (ids, texts, messages, same, count, distinct, bound, spelled, (e, read, held))
      add_fragments-Fragments bytes result (fragment ∷ other ∷ fragments) s s' small h = cc
