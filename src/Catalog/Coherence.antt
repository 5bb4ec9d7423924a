-- ===== src/Catalog/Coherence.antt =====
-- The cached tables agree with the store, as long as the store is changed through the schema only.
use duckdb_paimon.Prelude.{
  ◌≡◌, refl, sym, ap, ◌∙◌, Bool, true, false, String, Option, none, some, List, [], ◌∷◌, arith,
  lookup, lookup-emplace-eq-some, inl, inr,
}
use duckdb_paimon.Sql.{Result, ok, throw, >>=-eq-ok}
use duckdb_paimon.Paimon.{Outcome, value, status}
use duckdb_paimon.Catalog.Backend.{Backend}
use duckdb_paimon.Catalog.TableSet.{
  TableEntry, TableSet, columns_of, entry_of, read_entry, find_entry, emplace_entry, build_from,
  build_entry, unless_thrown, build_each, mark_inited, load_from, scan_loaded, load_entries, scan,
}

module _ (b : Backend) (schema : String) where
  -- An entry of the cache is what the store holds under its name, which is the key but for case.
  abbrev pub Stored : b.Store → String → TableEntry → Type 0
  Stored store key e = (b.lower e.name ≡ key) × (read_entry b schema store e.name ≡ ok (some e))

  abbrev pub Coherent : b.Store → TableSet → Type 0
  Coherent store tables =
      (key : String) (e : TableEntry) → lookup key tables.entries ≡ some e → Stored store key e

  entry_of-name :
      (name : String) (o : Outcome (Option b.Schema)) (e : TableEntry)
      → entry_of b schema name o ≡ ok (some e)
      → e.name ≡ name
  unfolding entry_of
  entry_of-name name (status s) e h = ground arith
  entry_of-name name (value none) e h = cc
  entry_of-name name (value (some t)) e h =
      let (columns, q, g) = >>=-eq-ok (columns_of b schema t) _ h in ap name_of (sym g)
    where
      name_of : Result (Option TableEntry) → String
      name_of (ok (some x)) = x.name
      name_of _ = name

  emplaced :
      (store : b.Store) (tables : TableSet) (name : String) (entry : TableEntry)
      → Coherent store tables
      → read_entry b schema store name ≡ ok (some entry)
      → Coherent store (emplace_entry b schema tables name entry)
  unfolding emplace_entry read_entry
  emplaced store tables name entry coherent h key e found =
      elim (lookup-emplace-eq-some (b.lower name) key entry e tables.entries found) [
        | inl before ↦ coherent key e before
        | inr (same, equal) ↦ (
          ap b.lower (ap (λ x. x.name) (sym equal) ∙ named) ∙ same,
          ap (read_entry b schema store) (ap (λ x. x.name) (sym equal) ∙ named)
              ∙ h
              ∙ ap (λ x. ok (some x)) equal,
        )
      ]
    where
      named : entry.name ≡ name
      named = entry_of-name name (b.load_table_schema store schema name) entry h

  abbrev pub Answers : b.Store → String → Result (Option TableEntry) → Type 0
  Answers store name (throw e) = Unit
  Answers store name (ok none) = read_entry b schema store name ≡ ok none
  Answers store name (ok (some e)) = Stored store (b.lower name) e

  -- A lookup leaves a coherent cache, and its answer is the store's.
  abbrev pub Sound : b.Store → String → Result (Option TableEntry) × TableSet → Type 0
  Sound store name (r, tables) = Coherent store tables × Answers store name r

  named_as :
      (store : b.Store) (name : String) (e : TableEntry)
      → read_entry b schema store name ≡ ok (some e)
      → Stored store (b.lower name) e
  unfolding read_entry
  named_as store name e h =
      let named = entry_of-name name (b.load_table_schema store schema name) e h in
      (ap b.lower named, ap (read_entry b schema store) named ∙ h)

  build_from-Sound :
      (store : b.Store) (tables : TableSet) (name : String) (cached : Option TableEntry)
      (read : Result (Option TableEntry))
      → Coherent store tables
      → lookup (b.lower name) tables.entries ≡ cached
      → read_entry b schema store name ≡ read
      → Sound store name (build_from b schema name tables cached read)
  unfolding build_from
  build_from-Sound store tables name (some e) read coherent found q =
      (coherent, coherent (b.lower name) e found)
  build_from-Sound store tables name none (throw e) coherent found q = (coherent, tt)
  build_from-Sound store tables name none (ok none) coherent found q = (coherent, q)
  build_from-Sound store tables name none (ok (some e)) coherent found q =
      (emplaced store tables name e coherent q, named_as store name e q)

  pub build_entry-Sound :
      (store : b.Store) (tables : TableSet) (name : String)
      → Coherent store tables
      → Sound store name (build_entry b schema store tables name)
  unfolding build_entry find_entry
  build_entry-Sound store tables name coherent =
      build_from-Sound store tables name (lookup (b.lower name) tables.entries)
        (read_entry b schema store name) coherent refl refl

  unless_thrown-Coherent :
      (store : b.Store) (built : Result (Option TableEntry) × TableSet)
      (rest : TableSet → Result (Unit {0}) × TableSet)
      → Coherent store built.1
      → ((tables : TableSet) → Coherent store tables → Coherent store (rest tables).1)
      → Coherent store (unless_thrown built rest).1
  unfolding unless_thrown
  unless_thrown-Coherent store (throw e, tables) rest coherent kept = coherent
  unless_thrown-Coherent store (ok entry, tables) rest coherent kept = kept tables coherent

  build_each-Coherent :
      (store : b.Store) (tables : TableSet) (names : List String)
      → Coherent store tables
      → Coherent store (build_each b schema store tables names).1
  unfolding build_each
  build_each-Coherent store tables [] coherent = coherent
  build_each-Coherent store tables (name ∷ names) coherent =
      unless_thrown-Coherent store (build_entry b schema store tables name)
        (λ next. build_each b schema store next names)
        (build_entry-Sound store tables name coherent).0
        (λ next kept. build_each-Coherent store next names kept)

  mark_inited-Coherent :
      (store : b.Store) (loaded : Result (Unit {0}) × TableSet)
      → Coherent store loaded.1
      → Coherent store (mark_inited b schema loaded).1
  unfolding mark_inited
  mark_inited-Coherent store (ok u, tables) coherent = coherent
  mark_inited-Coherent store (throw e, tables) coherent = coherent

  load_from-Coherent :
      (store : b.Store) (tables : TableSet) (inited : Bool) (listed : Outcome (List String))
      → Coherent store tables
      → Coherent store (load_from b schema store tables inited listed).1
  unfolding load_from
  load_from-Coherent store tables true listed coherent = coherent
  load_from-Coherent store tables false (status e) coherent = coherent
  load_from-Coherent store tables false (value names) coherent =
      mark_inited-Coherent store (build_each b schema store tables names)
        (build_each-Coherent store tables names coherent)

  scan_loaded-Coherent :
      (store : b.Store) (loaded : Result (Unit {0}) × TableSet)
      → Coherent store loaded.1
      → Coherent store (scan_loaded b schema loaded).1
  unfolding scan_loaded
  scan_loaded-Coherent store (ok u, tables) coherent = coherent
  scan_loaded-Coherent store (throw e, tables) coherent = coherent

  pub scan-Coherent :
      (store : b.Store) (tables : TableSet)
      → Coherent store tables
      → Coherent store (scan b schema store tables).1
  unfolding scan load_entries
  scan-Coherent store tables coherent =
      scan_loaded-Coherent store (load_entries b schema store tables)
        (load_from-Coherent store tables tables.inited (b.list_tables store schema) coherent)
