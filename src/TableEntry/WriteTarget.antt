-- ===== src/TableEntry/WriteTarget.antt =====
-- src/paimon_storage/paimon_table_entry.cpp: `GetLogicalWriteTargetIdentity` and
-- `GetLogicalWriteTargetDefinition`.
use duckdb_paimon.Prelude.{String, Option, none, some, [], ◌∷◌, ◌++◌, is_empty}
use duckdb_paimon.Sql.{Result, ok, throw, io_exception}
use duckdb_paimon.TablePath.{Text}
use duckdb_paimon.Catalog.Backend.{Backend}
use duckdb_paimon.DistributedInsert.Actions.{Action, reads, raise_if, ◌>>=◌, ◌>>◌}
use duckdb_paimon.DistributedInsert.Identities.{Platform}
use duckdb_paimon.DistributedInsert.Target.{DataSchema, TableCatalog, answered, ask, stable_uuid}

-- "paimon-write-definition:v1:"
abbrev pub definition_prefix : Text
definition_prefix =
    b'p' ∷ b'a' ∷ b'i' ∷ b'm' ∷ b'o' ∷ b'n' ∷ b'-' ∷ b'w' ∷ b'r' ∷ b'i' ∷ b't' ∷ b'e' ∷ b'-' ∷ b'd'
    ∷ b'e' ∷ b'f' ∷ b'i' ∷ b'n' ∷ b'i' ∷ b't' ∷ b'i' ∷ b'o' ∷ b'n' ∷ b':' ∷ b'v' ∷ b'1' ∷ b':' ∷ []

unfoldable pub defined_schema : Option DataSchema → Result DataSchema
defined_schema none = throw (io_exception "Paimon table has no write target definition")
defined_schema (some schema) = ok schema

module _ {b : Backend} (catalog : TableCatalog b) (p : Platform) (schema name : String) where
  unfoldable pub logical_write_target_identity : Action b.Store String
  logical_write_target_identity = do
    uuid ← ask (λ s. catalog.table_uuid s schema name)
    reads (λ s. stable_uuid uuid)

  unfoldable pub logical_write_target_definition : Action b.Store Text
  logical_write_target_definition = do
    answer ← ask (λ s. catalog.load_schema s schema name)
    found ← reads (λ s. defined_schema answer)
    json ← reads (λ s. answered found.json)
    raise_if (is_empty json) (io_exception "Paimon table has an empty write target definition")
    reads (λ s. ok (definition_prefix ++ p.md5_hex json))
