-- ===== src/Catalog/Freshness.antt =====
-- What CREATE TABLE and DROP TABLE leave in the cache for the next lookup of the name.
use duckdb_paimon.Prelude.{
  ◌≡◌, refl, sym, ◌∙◌, Bool, String, Option, none, some, eq_refl, lookup-erase, lookup-emplace,
}
use duckdb_paimon.Sql.{Result, ok, throw}
use duckdb_paimon.Paimon.{Status}
use duckdb_paimon.Catalog.Backend.{Backend, TableRequest}
use duckdb_paimon.Catalog.TableSet.{
  TableEntry, TableSet, read_entry, find_entry, build_from, emplace_entry, build_entry, get_entry,
  refresh_entry, drop_entry,
}
use duckdb_paimon.Catalog.SchemaEntry.{
  CatalogType, CreateTableInfo, table_request, after_create, send_create, create_table, after_drop,
  drop_table, lookup_entry,
}

module _ (b : Backend) (schema : String) where
  missing_after_drop_entry :
      (tables : TableSet) (name : String)
      → find_entry b schema (drop_entry b schema tables name) name ≡ none
  unfolding find_entry drop_entry
  missing_after_drop_entry tables name =
      rw (lookup-erase (b.lower name) (b.lower name) tables.entries, eq_refl (b.lower name))

  found_after_emplace :
      (tables : TableSet) (name : String) (e : TableEntry)
      → find_entry b schema tables name ≡ none
      → find_entry b schema (emplace_entry b schema tables name e) name ≡ some e
  unfolding find_entry emplace_entry
  found_after_emplace tables name e missing = rw (
    lookup-emplace (b.lower name) (b.lower name) e tables.entries,
    eq_refl (b.lower name),
    missing,
  )

  -- Where the cache has nothing, the answer is the store's, and a second lookup gives it again.
  build_from-none :
      (store : b.Store) (tables : TableSet) (name : String) (read : Result (Option TableEntry))
      → read_entry b schema store name ≡ read
      → find_entry b schema tables name ≡ none
      → ((build_from b schema name tables none read).0 ≡ read)
        × ((build_entry b schema store (build_from b schema name tables none read).1 name).0 ≡ read)
  unfolding build_from build_entry
  build_from-none store tables name (throw e) q missing = (refl, rw (missing, q))
  build_from-none store tables name (ok none) q missing = (refl, rw (missing, q))
  build_from-none store tables name (ok (some e)) q missing =
      (refl, rw (found_after_emplace tables name e missing))

  refresh_entry-reads :
      (store : b.Store) (tables : TableSet) (name : String)
      → ((refresh_entry b schema store tables name).0 ≡ read_entry b schema store name)
        × ((build_entry b schema store (refresh_entry b schema store tables name).1 name).0
            ≡ read_entry b schema store name)
  unfolding refresh_entry build_entry
  refresh_entry-reads store tables name =
      let missing = missing_after_drop_entry tables name in
      let known =
        build_from-none store (drop_entry b schema tables name) name
          (read_entry b schema store name) refl missing in
      (rw missing known.0, rw missing known.1)

  after_create-reads :
      (name : String) (tables : TableSet) (answer : Option Status × b.Store) (r : Option TableEntry)
      → (after_create b schema name tables answer).0 ≡ ok r
      → (read_entry b schema (after_create b schema name tables answer).1 name ≡ ok r)
        × ((lookup_entry b schema
              (after_create b schema name tables answer).1
              (after_create b schema name tables answer).2
              CatalogType.table_entry
              name).0
            ≡ ok r)
  unfolding after_create lookup_entry get_entry
  after_create-reads name tables (some e, store) r h = cc
  after_create-reads name tables (none, store) r h =
      let (first, second) = refresh_entry-reads store tables name in
      (sym first ∙ h, second ∙ sym first ∙ h)

  send_create-reads :
      (store : b.Store) (tables : TableSet) (name : String) (request : Result TableRequest)
      (r : Option TableEntry)
      → (send_create b schema store tables name request).0 ≡ ok r
      → (read_entry b schema (send_create b schema store tables name request).1 name ≡ ok r)
        × ((lookup_entry b schema
              (send_create b schema store tables name request).1
              (send_create b schema store tables name request).2
              CatalogType.table_entry
              name).0
            ≡ ok r)
  unfolding send_create
  send_create-reads store tables name (throw e) r h = cc
  send_create-reads store tables name (ok request) r h =
      after_create-reads name tables (b.create_table store schema name request) r h

  -- The entry that CREATE TABLE gives is what the changed store holds, whatever the cache held before,
  -- and the next lookup gives it again.
  pub create_table-reads :
      (store : b.Store) (tables : TableSet) (info : CreateTableInfo) (r : Option TableEntry)
      → (create_table b schema store tables info).0 ≡ ok r
      → (read_entry b schema (create_table b schema store tables info).1 info.table ≡ ok r)
        × ((lookup_entry b schema
              (create_table b schema store tables info).1
              (create_table b schema store tables info).2
              CatalogType.table_entry
              info.table).0
            ≡ ok r)
  unfolding create_table
  create_table-reads store tables info r h =
      send_create-reads store tables info.table (table_request info) r h

  after_drop-reads :
      (name : String) (tables : TableSet) (answer : Option Status × b.Store)
      → (after_drop b schema name tables answer).0 ≡ ok tt
      → (lookup_entry b schema
          (after_drop b schema name tables answer).1
          (after_drop b schema name tables answer).2
          CatalogType.table_entry
          name).0
        ≡ read_entry b schema (after_drop b schema name tables answer).1 name
  unfolding after_drop lookup_entry get_entry build_entry
  after_drop-reads name tables (some e, store) h = cc
  after_drop-reads name tables (none, store) h =
      rw (missing_after_drop_entry tables name)
        (build_from-none store (drop_entry b schema tables name) name
          (read_entry b schema store name) refl (missing_after_drop_entry tables name)).0

  -- After a DROP TABLE that succeeds, a lookup of the name no longer sees the cached table: it gives
  -- what the changed store answers.
  pub drop_table-reads :
      (store : b.Store) (tables : TableSet) (type : CatalogType) (name : String) (ignore : Bool)
      → (drop_table b schema store tables type name ignore).0 ≡ ok tt
      → (lookup_entry b schema
          (drop_table b schema store tables type name ignore).1
          (drop_table b schema store tables type name ignore).2
          CatalogType.table_entry
          name).0
        ≡ read_entry b schema (drop_table b schema store tables type name ignore).1 name
  unfolding drop_table
  drop_table-reads store tables CatalogType.other_type name ignore h = cc
  drop_table-reads store tables CatalogType.table_entry name ignore h =
      after_drop-reads name tables (b.drop_table store schema name ignore) h
