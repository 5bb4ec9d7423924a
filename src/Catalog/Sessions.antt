-- ===== src/Catalog/Sessions.antt =====
-- Any sequence of lookups, scans, creations and drops of the tables of a schema.
use duckdb_paimon.Prelude.{
  ◌≡◌, ◌≢◌, refl, sym, ap, ◌∙◌, Bool, String, Option, none, some, lookup, lookup-erase-eq-some,
}
use mathlib.Core.Path.{subst}
use duckdb_paimon.Sql.{Result, ok, throw}
use duckdb_paimon.Paimon.{Status}
use duckdb_paimon.Catalog.Backend.{Backend, TableRequest}
use duckdb_paimon.Catalog.TableSet.{
  TableSet, no_tables, entry_of, read_entry, get_entry, refresh_entry, drop_entry,
}
use duckdb_paimon.Catalog.SchemaEntry.{
  CatalogType, CreateTableInfo, table_request, after_create, send_create, create_table, after_drop,
  drop_table, lookup_entry, scan_schema,
}
use duckdb_paimon.Catalog.Coherence.{Coherent, Answers, build_entry-Sound, scan-Coherent}

-- A call of paimon-cpp on a table leaves the schemas of the other tables as they are, and one that
-- fails changes nothing.
pub record IsLocal (b : Backend) : Type 0 where
  pub create-other :
      (store : b.Store) (schema name other : String) (request : TableRequest)
      → other ≢ name
      → b.load_table_schema (b.create_table store schema name request).1 schema other
        ≡ b.load_table_schema store schema other
  pub create-failed :
      (store : b.Store) (schema name : String) (request : TableRequest) (e : Status)
      → (b.create_table store schema name request).0 ≡ some e
      → (b.create_table store schema name request).1 ≡ store
  pub drop-other :
      (store : b.Store) (schema name other : String) (ignore : Bool)
      → other ≢ name
      → b.load_table_schema (b.drop_table store schema name ignore).1 schema other
        ≡ b.load_table_schema store schema other
  pub drop-failed :
      (store : b.Store) (schema name : String) (ignore : Bool) (e : Status)
      → (b.drop_table store schema name ignore).0 ≡ some e
      → (b.drop_table store schema name ignore).1 ≡ store

module _ (b : Backend) (schema : String) where
  -- Without the entries of the name, a cache is coherent with a store that differs in it only.
  drop_entry-Coherent :
      (store changed : b.Store) (tables : TableSet) (name : String)
      → Coherent b schema store tables
      → ((other : String)
          → other ≢ name
          → b.load_table_schema changed schema other ≡ b.load_table_schema store schema other)
      → Coherent b schema changed (drop_entry b schema tables name)
  unfolding drop_entry read_entry
  drop_entry-Coherent store changed tables name coherent local key e found =
      let (there, apart) = lookup-erase-eq-some (b.lower name) key e tables.entries found in
      let (keyed, stored) = coherent key e there in
      let other : e.name ≢ name = λ same. apart (ap b.lower (sym same) ∙ keyed) in
      (keyed, ap (entry_of b schema e.name) (local e.name other) ∙ stored)

  after_create-Coherent :
      (store : b.Store) (tables : TableSet) (name : String) (request : TableRequest)
      (answer : Option Status × b.Store)
      → IsLocal b
      → Coherent b schema store tables
      → b.create_table store schema name request ≡ answer
      → Coherent b schema
          (after_create b schema name tables answer).1
          (after_create b schema name tables answer).2
  unfolding after_create refresh_entry
  after_create-Coherent store tables name request (some e, changed) laws coherent q =
      let same : store ≡ changed =
        sym (laws.create-failed store schema name request e (ap (λ a. a.0) q)) ∙ ap (λ a. a.1) q in
      subst (λ s. Coherent b schema s tables) same coherent
  after_create-Coherent store tables name request (none, changed) laws coherent q =
      (build_entry-Sound b schema changed (drop_entry b schema tables name) name (
        drop_entry-Coherent store changed tables name coherent (λ other apart.
          ap (λ a. b.load_table_schema a.1 schema other) (sym q)
          ∙ laws.create-other store schema name other request apart))).0

  after_drop-Coherent :
      (store : b.Store) (tables : TableSet) (name : String) (ignore : Bool)
      (answer : Option Status × b.Store)
      → IsLocal b
      → Coherent b schema store tables
      → b.drop_table store schema name ignore ≡ answer
      → Coherent b schema
          (after_drop b schema name tables answer).1
          (after_drop b schema name tables answer).2
  unfolding after_drop
  after_drop-Coherent store tables name ignore (some e, changed) laws coherent q =
      let same : store ≡ changed =
        sym (laws.drop-failed store schema name ignore e (ap (λ a. a.0) q)) ∙ ap (λ a. a.1) q in
      subst (λ s. Coherent b schema s tables) same coherent
  after_drop-Coherent store tables name ignore (none, changed) laws coherent q =
      drop_entry-Coherent store changed tables name coherent (λ other apart.
        ap (λ a. b.load_table_schema a.1 schema other) (sym q)
        ∙ laws.drop-other store schema name other ignore apart)

  send_create-Coherent :
      (store : b.Store) (tables : TableSet) (name : String) (request : Result TableRequest)
      → IsLocal b
      → Coherent b schema store tables
      → Coherent b schema
          (send_create b schema store tables name request).1
          (send_create b schema store tables name request).2
  unfolding send_create
  send_create-Coherent store tables name (throw e) laws coherent = coherent
  send_create-Coherent store tables name (ok request) laws coherent =
      after_create-Coherent store tables name request (b.create_table store schema name request)
        laws coherent refl

  -- What a session does with the tables of the schema.
  pub data Request : Type 0 where
    look_up : CatalogType → String → Request
    scan_all : CatalogType → Request
    create : CreateTableInfo → Request
    drop : CatalogType → String → Bool → Request

  -- The state that a request leaves behind, with or without an exception.
  abbrev pub serve : Request → b.Store × TableSet → b.Store × TableSet
  serve (look_up type name) (store, tables) =
      (store, (lookup_entry b schema store tables type name).1)
  serve (scan_all type) (store, tables) = (store, (scan_schema b schema store tables type).1)
  serve (create info) (store, tables) =
      ((create_table b schema store tables info).1, (create_table b schema store tables info).2)
  serve (drop type name ignore) (store, tables) = (
    (drop_table b schema store tables type name ignore).1,
    (drop_table b schema store tables type name ignore).2,
  )

  -- The states that requests lead to from a schema entry that was just made.
  pub data Reachable : b.Store × TableSet → Type 0 where
    opened : (store : b.Store) → Reachable (store, no_tables)
    served :
        (state : b.Store × TableSet) (request : Request)
        → Reachable state
        → Reachable (serve request state)

  serve-Coherent :
      (request : Request) (state : b.Store × TableSet)
      → IsLocal b
      → Coherent b schema state.0 state.1
      → Coherent b schema (serve request state).0 (serve request state).1
  unfolding lookup_entry scan_schema create_table drop_table get_entry
  serve-Coherent (look_up CatalogType.table_entry name) (store, tables) laws coherent =
      (build_entry-Sound b schema store tables name coherent).0
  serve-Coherent (look_up CatalogType.other_type name) (store, tables) laws coherent = coherent
  serve-Coherent (scan_all CatalogType.table_entry) (store, tables) laws coherent =
      scan-Coherent b schema store tables coherent
  serve-Coherent (scan_all CatalogType.other_type) (store, tables) laws coherent = coherent
  serve-Coherent (create info) (store, tables) laws coherent =
      send_create-Coherent store tables info.table (table_request info) laws coherent
  serve-Coherent (drop CatalogType.table_entry name ignore) (store, tables) laws coherent =
      after_drop-Coherent store tables name ignore (b.drop_table store schema name ignore) laws
        coherent refl
  serve-Coherent (drop CatalogType.other_type name ignore) (store, tables) laws coherent = coherent

  Reachable-Coherent :
      (state : b.Store × TableSet) → IsLocal b → Reachable state → Coherent b schema state.0 state.1
  unfolding lookup
  Reachable-Coherent state laws (opened store) = λ key e found. cc
  Reachable-Coherent state laws (served before request reached) =
      serve-Coherent request before laws (Reachable-Coherent before laws reached)

  -- After any requests, with or without exceptions, a lookup that gives a table gives what the store
  -- holds under that table's name, which is the name asked for but for case; and where it gives
  -- none, the store has no such table. The store is changed by these requests only, a call of paimon-cpp
  -- changes no other table's schema, and a call that fails changes nothing.
  pub lookup_entry-Answers :
      (state : b.Store × TableSet) (name : String)
      → IsLocal b
      → Reachable state
      → Answers b schema state.0 name
          (lookup_entry b schema state.0 state.1 CatalogType.table_entry name).0
  unfolding lookup_entry get_entry
  lookup_entry-Answers state name laws reached =
      (build_entry-Sound b schema state.0 state.1 name (Reachable-Coherent state laws reached)).1
