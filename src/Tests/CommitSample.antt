-- ===== src/Tests/CommitSample.antt =====
-- Commit messages that are numbers, with a codec of their lists, and the commit envelopes of the table of
-- WriteSample's bind.
use duckdb_paimon.Prelude.{
  ℕ, ◌+◌, ◌≡◌, refl, sym, ap, true, Option, none, some, List, [], ◌∷◌, map, is_empty, length,
}
use duckdb_paimon.Prelude.Int.{pos}
use duckdb_paimon.Sql.{ok}
use duckdb_paimon.Paimon.{Outcome, value}
use duckdb_paimon.TablePath.{Text}
use duckdb_paimon.DistributedInsert.CommitEnvelope.{CommitEnvelope, IsLossless}
use duckdb_paimon.DistributedInsert.Tasks.{WriteInfo, callback_sink, codec_name}
use duckdb_paimon.DistributedInsert.Worker.{WorkerApi}
use duckdb_paimon.DistributedInsert.DecodeState.{MessageApi, Vane}
use duckdb_paimon.DistributedInsert.Handover.{CodecsAgree}
use duckdb_paimon.Wire.{Kind}
use duckdb_paimon.Tests.SampleWire.{
  wire, wire-IsFaithful, read_under, put_field, get_field, code_in, string_in,
}
use duckdb_paimon.Tests.WriteSample.{bind, bind_bytes}

-- An envelope of the table of the bind.
abbrev pub of_table : CommitEnvelope → CommitEnvelope
of_table e = record e { table_uuid = bind.table_uuid; table_path = bind.table_path }

pub of_table-IsLossless : (e : CommitEnvelope) → IsLossless wire (of_table e)
unfolding put_field get_field code_in string_in
of_table-IsLossless e = record {
  faithful = wire-IsFaithful;
  table_uuid = read_under Kind.string bind.table_uuid (λ rest. refl);
  table_path = read_under Kind.string bind.table_path (λ rest. refl);
}

-- A writer is a number, which is its message. A list of messages is written behind its length.
abbrev pub writers : WorkerApi ℕ ℕ
writers = record {
  create = λ path user id options. value id;
  write = λ w partition rows. (none, w + length rows);
  prepare_commit = λ w id. (value (some w ∷ []), w);
  close = λ w. none;
  serialize_list = λ messages. value (length messages ∷ messages);
  current_version = pos 1;
}

abbrev behind_length : Text → Outcome (List (Option ℕ))
behind_length [] = value []
behind_length (n ∷ messages) = value (map some messages)

abbrev pub numbers : MessageApi ℕ
numbers = record {
  deserialize_list = λ version bytes. behind_length bytes;
  serialize = λ m. value (m ∷ []);
  current_version = pos 1;
}

pub codecs_agree : CodecsAgree writers numbers
codecs_agree = record {
  same_version = refl;
  positive = refl;
  read_written = λ messages bytes h.
      let e : length messages ∷ messages ≡ bytes = cc in ap behind_length (sym e);
  written_filled =
      λ messages bytes h. let e : length messages ∷ messages ≡ bytes = cc in ap is_empty (sym e);
}

abbrev pub write_info : WriteInfo
write_info = record {
  mode = callback_sink;
  capability = record { extension_name = "paimon"; name = "insert"; protocol_version = 3 };
  fragment_codec = record { name = codec_name; version = 3 };
  name = "insert";
  worker_bind_data = bind_bytes;
}

abbrev pub vane : Vane
vane = record {
  validate_result = λ r. ok tt;
  same_capability = λ x y. true;
  same_codec = λ x y. true;
}
