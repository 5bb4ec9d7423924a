-- ===== src/Catalog/Schemas.antt =====
-- What CREATE SCHEMA and DROP SCHEMA leave in the cache for the lookups that follow.
use duckdb_paimon.Prelude.{
  ◌≡◌, refl, sym, ap, ◌∙◌, Bool, true, false, String, eq_refl, eq_iff, Option, none, some, List, [],
  ◌∷◌, arith, Map, lookup, emplace, lookup-emplace, lookup-erase, is_some, if◌then◌else◌,
  Option-cases, inl, inr,
}
use duckdb_paimon.Sql.{Result, ok, throw, catalog_exception}
use duckdb_paimon.Paimon.{value, Status}
use duckdb_paimon.Catalog.Backend.{Backend}
use duckdb_paimon.Catalog.SchemaSet.{
  SchemaEntry, SchemaSet, new_schema, add_schema, add_each, load_schemas_from, load_schemas,
  find_schema, get_loaded, get_schema, create_schema_entry, drop_schema_entry,
  after_create_database, create_schema, after_drop_database, drop_schema, require_schema,
  lookup_schema,
}

module _ (b : Backend) where
  add_each-keeps :
      (names : List String) (entries : Map SchemaEntry) (key : String) (e : SchemaEntry)
      → lookup key entries ≡ some e
      → lookup key (add_each b names entries) ≡ some e
  unfolding add_each add_schema
  add_each-keeps [] entries key e h = h
  add_each-keeps (name ∷ names) entries key e h =
      add_each-keeps names (add_schema b name entries) key e (
        ground (
          arith,
          lookup-emplace (b.lower name) key (new_schema b name) entries,
          eq_iff (b.lower name) key,
        ))

  -- An entry of the set is found by every lookup that can list the databases where it must.
  get_schema-keeps :
      (store : b.Store) (set : SchemaSet) (inited : Bool) (name : String) (e : SchemaEntry)
      (names : List String)
      → find_schema b set name ≡ some e
      → (get_loaded b name (load_schemas_from b set inited (value names))).0 ≡ ok (some e)
  unfolding get_loaded load_schemas_from find_schema
  get_schema-keeps store set true name e names h = ap ok h
  get_schema-keeps store set false name e names h =
      ap ok (add_each-keeps names set.entries (b.lower name) e h)

  require_schema-some :
      (flag : Bool) (found : Result (Option SchemaEntry) × SchemaSet) (e : SchemaEntry)
      → found.0 ≡ ok (some e)
      → (require_schema b flag found).0 ≡ ok (some e)
  unfolding require_schema
  require_schema-some flag (ok none, set) e h = cc
  require_schema-some flag (ok (some x), set) e h = h
  require_schema-some flag (throw x, set) e h = cc

  lookup_schema-found :
      (store : b.Store) (set : SchemaSet) (name : String) (e : SchemaEntry) (names : List String)
      (flag : Bool)
      → find_schema b set name ≡ some e
      → b.list_databases store ≡ value names
      → (lookup_schema b store set name flag).0 ≡ ok (some e)
  unfolding lookup_schema get_schema load_schemas
  lookup_schema-found store set name e names flag found listed = rw listed (
      require_schema-some flag
        (get_loaded b name (load_schemas_from b set set.inited (value names))) e
        (get_schema-keeps store set set.inited name e names found))

  created :
      (set : SchemaSet) (name : String)
      → (e : SchemaEntry) × (find_schema b (create_schema_entry b set name).1 name ≡ some e)
  unfolding find_schema create_schema_entry add_schema
  created set name = elim (Option-cases (lookup (b.lower name) set.entries)) [
    | inl missing ↦ (
      new_schema b name,
      rw (
        lookup-emplace (b.lower name) (b.lower name) (new_schema b name) set.entries,
        eq_refl (b.lower name),
        missing,
      ),
    )
    | inr (e, there) ↦ (
      e,
      rw (
        lookup-emplace (b.lower name) (b.lower name) (new_schema b name) set.entries,
        eq_refl (b.lower name),
        there,
      ),
    )
  ]

  after_create_database-found :
      (set : SchemaSet) (name : String) (answer : Option Status × b.Store) (r : Option SchemaEntry)
      → (after_create_database b name set answer).0 ≡ ok r
      → (e : SchemaEntry) × (r ≡ some e)
        × (find_schema b (after_create_database b name set answer).2 name ≡ some e)
  unfolding after_create_database create_schema_entry
  after_create_database-found set name (some s, store) r h = cc
  after_create_database-found set name (none, store) r h =
      let (e, found) = created set name in
      let given : find_schema b (create_schema_entry b set name).1 name ≡ r = cc in
      (e, sym given ∙ found, found)

  -- After a CREATE SCHEMA that succeeds, every lookup of the name gives the entry that it gave, provided
  -- that the databases can be listed: the entries that are loaded later do not replace it.
  pub lookup_schema-create_schema :
      (store later : b.Store) (set : SchemaSet) (name : String) (ignore flag : Bool)
      (names : List String) (r : Option SchemaEntry)
      → (create_schema b store set name ignore).0 ≡ ok r
      → b.list_databases later ≡ value names
      → (is_some r ≡ true)
        × ((lookup_schema b later (create_schema b store set name ignore).2 name flag).0 ≡ ok r)
  unfolding create_schema
  lookup_schema-create_schema store later set name ignore flag names r h listed =
      let (e, given, found) =
        after_create_database-found set name (b.create_database store name ignore) r h in
      (
        ap is_some given,
        lookup_schema-found later (create_schema b store set name ignore).2 name e names flag found
              listed
            ∙ ap ok (sym given),
      )

  dropped :
      (set : SchemaSet) (name : String) → find_schema b (drop_schema_entry b set name) name ≡ none
  unfolding find_schema drop_schema_entry
  dropped set name =
      rw (lookup-erase (b.lower name) (b.lower name) set.entries, eq_refl (b.lower name))

  after_drop_database-dropped :
      (set : SchemaSet) (name : String) (answer : Option Status × b.Store)
      → (after_drop_database b name set answer).0 ≡ ok tt
      → (after_drop_database b name set answer).2 ≡ drop_schema_entry b set name
  unfolding after_drop_database
  after_drop_database-dropped set name (some e, store) h = cc
  after_drop_database-dropped set name (none, store) h = refl

  fresh_entry :
      (set : SchemaSet) (name : String) (answer : Option Status × b.Store) (r : Option SchemaEntry)
      → find_schema b set name ≡ none
      → (after_create_database b name set answer).0 ≡ ok r
      → r ≡ some (new_schema b name)
  unfolding after_create_database create_schema_entry find_schema add_schema
  fresh_entry set name (some e, store) r missing h = cc
  fresh_entry set name (none, store) r missing h =
      let given : lookup (b.lower name) (emplace (b.lower name) (new_schema b name) set.entries)
          ≡ r =
        cc in
      sym given
      ∙ rw (
        lookup-emplace (b.lower name) (b.lower name) (new_schema b name) set.entries,
        eq_refl (b.lower name),
        missing,
      )

  not_found :
      (store : b.Store) (set : SchemaSet) (inited : Bool) (name : String) (flag : Bool)
      → inited ≡ true
      → find_schema b set name ≡ none
      → (require_schema b flag
          (get_loaded b name (load_schemas_from b set inited (b.list_databases store)))).0
        ≡ (if flag then throw (catalog_exception "Schema not found") else ok none)
  unfolding require_schema get_loaded load_schemas_from
  not_found store set true name flag loaded missing = rw missing
  not_found store set false name flag loaded missing = cc

  -- After a DROP SCHEMA that succeeds, in a catalog whose schemas have been loaded, a lookup of the name
  -- fails as it is asked to; and a schema that is created again under the name has none of the dropped
  -- one's tables in its cache.
  pub drop_schema-forgets :
      (store later : b.Store) (set : SchemaSet) (name : String) (ignore cascade flag again : Bool)
      (r : Option SchemaEntry)
      → set.inited ≡ true
      → (drop_schema b store set name ignore cascade).0 ≡ ok tt
      → (create_schema b later (drop_schema b store set name ignore cascade).2 name again).0 ≡ ok r
      → ((lookup_schema b later (drop_schema b store set name ignore cascade).2 name flag).0
          ≡ (if flag then throw (catalog_exception "Schema not found") else ok none))
        × (r ≡ some (new_schema b name))
  unfolding drop_schema create_schema lookup_schema get_schema load_schemas drop_schema_entry
  drop_schema-forgets store later set name ignore cascade flag again r inited h h' =
      let answer = b.drop_database store name ignore cascade in
      let left = after_drop_database-dropped set name answer h in
      let missing : find_schema b (after_drop_database b name set answer).2 name ≡ none =
        ap (λ s. find_schema b s name) left ∙ dropped set name in
      let still : (after_drop_database b name set answer).2.inited ≡ true =
        ap (λ s. s.inited) left ∙ stays in
      (
        not_found later (after_drop_database b name set answer).2
            (after_drop_database b name set answer).2.inited name flag still missing,
        fresh_entry (after_drop_database b name set answer).2 name
            (b.create_database later name again) r missing h',
      )
    where
      stays : (drop_schema_entry b set name).inited ≡ true
      stays = inited
