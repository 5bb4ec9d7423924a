-- ===== src/Tests/TableStore.antt =====
-- A store of tables and databases in memory, for the catalog.
use duckdb_paimon.Prelude.{
  ◌≡◌, ◌≢◌, refl, ap, Bool, true, false, String, ◌==◌, eq_iff, Option, none, some, List, [], ◌∷◌,
  map, arith, Map, lookup, assign, erase, lookup-assign, lookup-erase, if◌then◌else◌,
}
use duckdb_paimon.Sql.{ok}
use duckdb_paimon.Paimon.{Outcome, value, status, Status}
use duckdb_paimon.Catalog.Backend.{Backend, TableRequest}
use duckdb_paimon.Catalog.Sessions.{IsLocal}
use duckdb_paimon.Tests.Sample.{varchar_type}

-- The databases, and the columns of each table.
abbrev pub Tables : Type 0
Tables = List String × Map (List String)

abbrev pub exists : Status
exists = record { text = "exists"; is_exist = true; is_not_exist = false }

abbrev pub missing : Status
missing = record { text = "missing"; is_exist = false; is_not_exist = true }

abbrev read_columns : Option (List String) → Outcome (Option (List String))
read_columns none = status missing
read_columns (some names) = value (some names)

abbrev add_table : Option (List String) → Tables → String → TableRequest → Option Status × Tables
add_table none (databases, tables) name request =
    (none, (databases, assign name request.column_names tables))
add_table (some names) store name request =
    (if request.ignore_if_exists then none else some exists, store)

abbrev remove_table : Option (List String) → Tables → String → Bool → Option Status × Tables
remove_table none store name ignore = (if ignore then none else some missing, store)
remove_table (some names) (databases, tables) name ignore = (none, (databases, erase name tables))

abbrev without : String → List String → List String
without name [] = []
without name (x ∷ xs) = let rest = without name xs in if x == name then rest else x ∷ rest

abbrev pub memory : Backend
memory = record {
  Store = Tables;
  Schema = List String;
  ArrowSchema = List String;
  load_table_schema = λ store schema name. read_columns (lookup name store.1);
  get_arrow_schema = λ names. value (some names);
  arrow_columns = λ names. ok (names, map (λ n. varchar_type) names);
  list_tables = λ store schema. value (map (λ kv. kv.0) store.1);
  list_databases = λ store. value store.0;
  create_table = λ store schema name request. add_table (lookup name store.1) store name request;
  drop_table = λ store schema name ignore. remove_table (lookup name store.1) store name ignore;
  create_database = λ store name ignore. (none, (name ∷ store.0, store.1));
  drop_database = λ store name ignore cascade. (none, (without name store.0, store.1));
  lower = λ s. s;
}

add_table-other :
    (store : Tables) (name other : String) (request : TableRequest) (found : Option (List String))
    → other ≢ name
    → lookup other (add_table found store name request).1.1 ≡ lookup other store.1
add_table-other store name other request none apart =
    ground (arith, lookup-assign name other request.column_names store.1, eq_iff name other)
add_table-other store name other request (some names) apart = refl

add_table-failed :
    (store : Tables) (name : String) (request : TableRequest) (found : Option (List String))
    (e : Status)
    → (add_table found store name request).0 ≡ some e
    → (add_table found store name request).1 ≡ store
add_table-failed store name request none e h = cc
add_table-failed store name request (some names) e h = refl

remove_table-other :
    (store : Tables) (name other : String) (ignore : Bool) (found : Option (List String))
    → other ≢ name
    → lookup other (remove_table found store name ignore).1.1 ≡ lookup other store.1
remove_table-other store name other ignore none apart = refl
remove_table-other store name other ignore (some names) apart =
    ground (arith, lookup-erase name other store.1, eq_iff name other)

remove_table-failed :
    (store : Tables) (name : String) (ignore : Bool) (found : Option (List String)) (e : Status)
    → (remove_table found store name ignore).0 ≡ some e
    → (remove_table found store name ignore).1 ≡ store
remove_table-failed store name ignore none e h = refl
remove_table-failed store name ignore (some names) e h = cc

pub memory-IsLocal : IsLocal memory
memory-IsLocal = record {
  create-other = λ store schema name other request apart.
      ap read_columns (add_table-other store name other request (lookup name store.1) apart);
  create-failed = λ store schema name request e h.
      add_table-failed store name request (lookup name store.1) e h;
  drop-other = λ store schema name other ignore apart.
      ap read_columns (remove_table-other store name other ignore (lookup name store.1) apart);
  drop-failed = λ store schema name ignore e h.
      remove_table-failed store name ignore (lookup name store.1) e h;
}
