-- ===== src/Scan/Binding.antt =====
-- What the bind data of a scan keep of its arguments.
use duckdb_paimon.Prelude.{ℕ, ◌≡◌, sym, ap, ◌∙◌, String, Option, List, Map}
use mathlib.Core.Path.{subst}
use duckdb_paimon.Sql.{LogicalType, ◌>>=◌, ok, >>=-eq-ok}
use duckdb_paimon.TablePath.{Text, PaimonTablePath, parse}
use duckdb_paimon.Catalog.Options.{Environment, CatalogKeys, get_paimon_options}
use duckdb_paimon.Scan.{ScanBindData}
use duckdb_paimon.Scan.Bind.{
  DataPart, ScanPlatform, ScanSchema, or_raise, present, bind_data_of, bind_schema, expected_splits,
  create_paimon_catalog, scan_bind,
}
use duckdb_paimon.DistributedScan.Transport.{initialize_distributed}

module _ (env : Environment) (keys : CatalogKeys) where
  module _ {Predicate Split : Type 0} (platform : ScanPlatform) (uuid : Text) where
    same_of_ok :
        (made bind : ScanBindData Predicate Split)
        → ok made ≡ ok bind
        → (bind.path ≡ made.path) × (bind.paimon_options ≡ made.paimon_options)
    same_of_ok made bind h =
        let same : bind ≡ made = cc in (ap (λ b. b.path) same, ap (λ b. b.paimon_options) same)

    bind_data-keeps :
        (path : PaimonTablePath) (location : String) (options : Map String) (expected : Option ℕ)
        (part : Option DataPart) (json : String) (columns : List String × List LogicalType)
        (bind : ScanBindData Predicate Split)
        → initialize_distributed uuid
            (bind_data_of path location options expected part json columns)
          ≡ ok bind
        → (bind.path ≡ path) × (bind.paimon_options ≡ options)
    unfolding bind_data_of initialize_distributed
    bind_data-keeps path location options expected part json (names, types) bind h =
        same_of_ok _ bind h

    bind_schema-keeps :
        (path : PaimonTablePath) (location : String) (options : Map String) (expected : Option ℕ)
        (schema : ScanSchema) (bind : ScanBindData Predicate Split)
        → bind_schema platform env keys path location options expected uuid schema ≡ ok bind
        → (bind.path ≡ path) × (bind.paimon_options ≡ options)
    unfolding bind_schema
    bind_schema-keeps path location options expected schema bind h =
        let (json, e1, h1) = >>=-eq-ok (or_raise schema.json) _ h in
        let (arrow, e2, h2) = >>=-eq-ok (or_raise schema.arrow_schema) _ h1 in
        let (columns, e3, h3) =
          >>=-eq-ok (present "Paimon Arrow schema is empty" arrow >>= (λ columns. columns)) _ h2 in
        bind_data-keeps path location options expected schema.data_part json columns bind h3

    -- The path and the options of a bound scan are those of its arguments.
    pub scan_bind-keeps :
        (inputs : List Text) (parameters : Map String) (bind : ScanBindData Predicate Split)
        → scan_bind platform env keys uuid inputs parameters ≡ ok bind
        → (parse platform.db_suffix inputs ≡ ok bind.path)
          × (get_paimon_options env keys (platform.string_of bind.path.warehouse) parameters
              ≡ ok bind.paimon_options)
    unfolding scan_bind
    scan_bind-keeps inputs parameters bind h =
        let (path, e1, h1) = >>=-eq-ok (parse platform.db_suffix inputs) _ h in
        let (expected, e2, h2) = >>=-eq-ok (expected_splits platform env keys _) _ h1 in
        let (options, e3, h3) = >>=-eq-ok (get_paimon_options env keys _ parameters) _ h2 in
        let (catalog, e4, h4) =
          >>=-eq-ok (create_paimon_catalog platform env keys _ parameters) _ h3 in
        let (location, e5, h5) = >>=-eq-ok (or_raise (catalog.table_location _ _)) _ h4 in
        let (answer, e6, h6) = >>=-eq-ok (or_raise (catalog.load_table_schema _ _)) _ h5 in
        let (schema, e7, h7) = >>=-eq-ok (present "Paimon table schema is empty" answer) _ h6 in
        let (same_path, same_options) =
          bind_schema-keeps path location options expected schema bind h7 in
        (
          e1 ∙ ap ok (sym same_path),
          subst
              (λ x.
                get_paimon_options env keys (platform.string_of x.warehouse) parameters
                ≡ ok bind.paimon_options)
              (sym same_path) (e3 ∙ ap ok (sym same_options)),
        )
