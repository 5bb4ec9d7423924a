-- ===== src/DistributedInsert/Publishing.antt =====
-- The end of a task: `PaimonDistributedInsertFinalize` and the destructor of the task's state.
use duckdb_paimon.Prelude.{◌≡◌, ◌≢◌, true, false, some, List, [], ◌∷◌, ◌++◌, map, ◌⊎◌}
use duckdb_paimon.Sql.{Result, ok, throw}
use duckdb_paimon.Paimon.{Status, value, status}
use duckdb_paimon.TablePath.{Text}
use duckdb_paimon.Wire.{Wire}
use duckdb_paimon.DistributedInsert.Identities.{Platform}
use duckdb_paimon.DistributedInsert.Transport.{serialize_transport}
use duckdb_paimon.DistributedInsert.Tasks.{TaskContext, Fragment, WriteKeys, WorkerGlobal}
use duckdb_paimon.DistributedInsert.Worker.{WorkerApi, WorkerState, fragment_of}

module _ {Writer Message : Type 0} (api : WorkerApi Writer Message) (p : Platform) (codec : Wire)
    (envelopes : Wire) (keys : WriteKeys) where
  -- What an end without an exception hands over: nothing of nothing, or one fragment of all messages.
  abbrev pub HandsOver : WorkerGlobal Message → TaskContext → List Message → List Fragment → Type 0
  HandsOver g task [] fragments = (fragments ≡ []) × (g.row_count ≡ 0)
  HandsOver g task (m ∷ messages) fragments =
      (transport_bytes : Text) × (message_bytes : Text) × (g.row_count ≢ 0)
      × (serialize_transport p keys.catalog.table codec g.transport ≡ ok transport_bytes)
      × (api.serialize_list (m ∷ messages) ≡ value message_bytes)
      × (fragments ≡ fragment_of api envelopes g task transport_bytes message_bytes ∷ [])

  -- What is left after an exception: every message is still held, and none was aborted unless the list of
  -- them could not be serialized, when each was aborted once.
  abbrev pub Left : WorkerState Writer Message → WorkerState Writer Message → Type 0
  Left s s' =
      (s'.global.messages ≡ s.global.messages)
      × ((s'.aborted ≡ s.aborted)
          ⊎ ((e : Status) × (api.serialize_list s.global.messages ≡ status e)
              × (s'.aborted ≡ s.aborted ++ map some s.global.messages)))

  -- What an end leaves, with or without an exception.
  abbrev pub Ends :
      TaskContext
      → WorkerState Writer Message
      → Result (List Fragment) × WorkerState Writer Message
      → Type 0
  Ends task s (ok fragments, s') =
      (s.global.finalized ≡ false)
      × HandsOver (record s.global { finalized = true }) task s.global.messages fragments
      × (s'.aborted ≡ s.aborted)
      × (s'.global.messages ≡ [])
  Ends task s (throw e, s') = Left s s'

  abbrev LeftBehind :
      WorkerState Writer Message → Result (List Fragment) × WorkerState Writer Message → Type 0
  LeftBehind s (ok fragments, s') = Unit
  LeftBehind s (throw e, s') = Left s s'
