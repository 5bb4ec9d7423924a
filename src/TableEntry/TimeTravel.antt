-- ===== src/TableEntry/TimeTravel.antt =====
-- Which snapshot the scan of an attached table reads.
use duckdb_paimon.Prelude.{
  ◌&&◌, ◌≡◌, refl, String, ◌==◌, if◌then◌else◌, Bool, not, true, false, Option, none, some, [], ◌∷◌,
  Map, lookup, assign, lookup-assign, arith, is_some,
}
use text.Mathlib.TextEquality.{eq_iff}
use mathlib.Core.Path.{subst}
use duckdb_paimon.Sql.{throw, invalid_input, Result, ◌>>=◌, ok, >>=-eq-ok, throw_if-passes}
use duckdb_paimon.TablePath.{Text, parse}
use duckdb_paimon.Catalog.Options.{
  Environment, CatalogKeys, ci_equals, try_get, assign_some, metastore_options, format_option,
  secret_options, snapshot_options, get_paimon_options,
}
use duckdb_paimon.Catalog.Validation.{snapshot_options-single}
use duckdb_paimon.Scan.{ScanBindData}
use duckdb_paimon.Scan.Binding.{scan_bind-keeps}
use duckdb_paimon.Scan.Bind.{ScanPlatform}
use duckdb_paimon.TableEntry.{
  AtClause, AtPlatform, assign_parameter, assign_parameters, set_cast, at_parameter, at_parameters,
  get_scan_function,
}

-- The snapshot that the options of a scan ask for, by its AT clause.
pub data TravelsTo (env : Environment) (keys : CatalogKeys) (at : AtPlatform)
    : AtClause → Map String → Type 0 where
  to_version :
      {clause : AtClause} {options : Map String} (text : String)
      → at.upper clause.unit ≡ "VERSION"
      → at.cast_bigint clause.value ≡ ok text
      → lookup keys.table.scan_snapshot_id options ≡ some text
      → TravelsTo env keys at clause options
  to_timestamp :
      {clause : AtClause} {options : Map String} (text millis : String)
      → at.upper clause.unit ≡ "TIMESTAMP"
      → at.cast_timestamp clause.value ≡ ok text
      → env.epoch_millis_text text ≡ ok millis
      → lookup keys.table.scan_timestamp_millis options ≡ some millis
      → TravelsTo env keys at clause options

module _ (env : Environment) (keys : CatalogKeys) where
  -- A parameter that was set is found, however it was spelled before.
  try_get-assign_parameter :
      (name text : String) (parameters : Map String)
      → try_get env keys (assign_parameter env keys name text parameters) name ≡ some text
  unfolding try_get assign_parameter ci_equals
  try_get-assign_parameter name text [] = ground (arith, eq_iff (env.lower name) (env.lower name))
  try_get-assign_parameter name text ((other, old) ∷ parameters) = ground (
    arith,
    eq_iff (env.lower name) (env.lower name),
    try_get-assign_parameter name text parameters,
  )

  lookup-assign-same :
      (key text : String) (options : Map String) → lookup key (assign key text options) ≡ some text
  lookup-assign-same key text options =
      ground (arith, lookup-assign key key text options, eq_iff key key)

  snapshot_options-id :
      (input options result : Map String) (text : String)
      → try_get env keys input "snapshot_from_id" ≡ some text
      → snapshot_options env keys input options ≡ ok result
      → lookup keys.table.scan_snapshot_id result ≡ some text
  unfolding snapshot_options
  snapshot_options-id input options result text given h = ground (
    arith,
    snapshot_options-single env keys input options result h,
    lookup-assign-same keys.table.scan_snapshot_id text options,
  )

  abbrev stamped_options : Map String → Map String → String → Map String
  stamped_options input options millis =
      assign keys.table.scan_timestamp_millis millis (
        assign_some keys.table.scan_snapshot_id (try_get env keys input "snapshot_from_id") options)

  abbrev stamped : Map String → Map String → String → Result (Map String)
  stamped input options millis = ok (stamped_options input options millis)

  -- The options behind the check, by the timestamp.
  abbrev timed : Map String → Map String → Option String → Result (Map String)
  timed input options none =
      ok (
        assign_some keys.table.scan_snapshot_id (try_get env keys input "snapshot_from_id") options)
  timed input options (some text) = env.epoch_millis_text text >>= stamped input options

  snapshot_options-timestamp :
      (input options result : Map String) (text : String)
      → try_get env keys input "snapshot_from_timestamp" ≡ some text
      → snapshot_options env keys input options ≡ ok result
      → (millis : String) × (env.epoch_millis_text text ≡ ok millis)
        × (lookup keys.table.scan_timestamp_millis result ≡ some millis)
  unfolding snapshot_options
  snapshot_options-timestamp input options result text given h =
      let (u, h1) =
        throw_if-passes
          (is_some (try_get env keys input "snapshot_from_id")
            && is_some (try_get env keys input "snapshot_from_timestamp"))
          _ _ h in
      let (millis, read, h2) =
        >>=-eq-ok (env.epoch_millis_text text) (stamped input options)
          (subst (λ by_time. timed input options by_time ≡ ok result) given h1) in
      let same : stamped_options input options millis ≡ result = cc in
      (
        millis,
        read,
        subst (λ x. lookup keys.table.scan_timestamp_millis x ≡ some millis) same
            (lookup-assign-same keys.table.scan_timestamp_millis millis _),
      )

  get_paimon_options-snapshot :
      (path : String) (input result : Map String)
      → get_paimon_options env keys path input ≡ ok result
      → (options : Map String) × (snapshot_options env keys input options ≡ ok result)
  unfolding get_paimon_options metastore_options
  get_paimon_options-snapshot path input result h =
      let (store, e1, h1) = >>=-eq-ok (metastore_options env keys input) _ h in
      let (manifest, e2, h2) =
        >>=-eq-ok (format_option env keys input "manifest_format" _ _ store) _ h1 in
      let (file, e3, h3) =
        >>=-eq-ok (format_option env keys input "file_format" _ _ manifest) _ h2 in
      let (authorized, e4, h4) =
        >>=-eq-ok (secret_options env keys path (env.lookup_secret path) _) _ h3 in
      (_, h4)

  module _ (at : AtPlatform) where
    set_cast-found :
        (name : String) (cast : Result String) (before parameters : Map String)
        → set_cast env keys at name cast before ≡ ok parameters
        → (text : String) × (cast ≡ ok text) × (try_get env keys parameters name ≡ some text)
    unfolding set_cast
    set_cast-found name cast before parameters h =
        let (text, e, h1) = >>=-eq-ok cast _ h in
        let same : assign_parameter env keys name text before ≡ parameters = cc in
        (
          text,
          e,
          subst (λ x. try_get env keys x name ≡ some text) same
              (try_get-assign_parameter name text before),
        )

    version-TravelsTo :
        (clause : AtClause) (before parameters options result : Map String)
        → at.upper clause.unit ≡ "VERSION"
        → set_cast env keys at "snapshot_from_id" (at.cast_bigint clause.value) before
          ≡ ok parameters
        → snapshot_options env keys parameters options ≡ ok result
        → TravelsTo env keys at clause result
    version-TravelsTo clause before parameters options result unit h asked =
        let (text, read, found) =
          set_cast-found "snapshot_from_id" (at.cast_bigint clause.value) before parameters h in
        to_version text unit read (snapshot_options-id parameters options result text found asked)

    timestamp-TravelsTo :
        (clause : AtClause) (before parameters options result : Map String)
        → at.upper clause.unit ≡ "TIMESTAMP"
        → set_cast env keys at "snapshot_from_timestamp" (at.cast_timestamp clause.value) before
          ≡ ok parameters
        → snapshot_options env keys parameters options ≡ ok result
        → TravelsTo env keys at clause result
    timestamp-TravelsTo clause before parameters options result unit h asked =
        let (text, read, found) =
          set_cast-found "snapshot_from_timestamp" (at.cast_timestamp clause.value) before
            parameters h in
        let (millis, stamp, chosen) =
          snapshot_options-timestamp parameters options result text found asked in
        to_timestamp text millis unit read stamp chosen

    at_parameter-TravelsTo :
        (clause : AtClause) (before parameters options result : Map String)
        → at_parameter env keys at clause before ≡ ok parameters
        → snapshot_options env keys parameters options ≡ ok result
        → TravelsTo env keys at clause result
    unfolding at_parameter
    at_parameter-TravelsTo clause before parameters options result h asked =
        by_unit (at.upper clause.unit == "VERSION") (at.upper clause.unit == "TIMESTAMP")
          (λ e. (eq_iff (at.upper clause.unit) "VERSION").0 e)
          (λ e. (eq_iff (at.upper clause.unit) "TIMESTAMP").0 e) h
      where
        by_unit :
            (is_version is_timestamp : Bool)
            → (is_version ≡ true → at.upper clause.unit ≡ "VERSION")
            → (is_timestamp ≡ true → at.upper clause.unit ≡ "TIMESTAMP")
            → (if is_version
                then set_cast env keys at "snapshot_from_id" (at.cast_bigint clause.value) before
                else if is_timestamp
                then set_cast env keys at "snapshot_from_timestamp"
                    (at.cast_timestamp clause.value)
                    before
                else throw
                    (invalid_input "Unsupported AT unit for Paimon. Use VERSION or TIMESTAMP."))
              ≡ ok parameters
            → TravelsTo env keys at clause result
        by_unit true is_timestamp v t set =
            version-TravelsTo clause before parameters options result (v refl) set asked
        by_unit false true v t set =
            timestamp-TravelsTo clause before parameters options result (t refl) set asked
        by_unit false false v t set = cc

    -- The scan of a table that has an AT clause is of this table, and asks for the snapshot of the clause: a
    -- version by its number, a timestamp by its milliseconds, with any other unit an exception. The options
    -- of the ATTACH do not change that, for no such bind succeeds where they choose a snapshot of the
    -- other kind.
    pub get_scan_function-TravelsTo :
        {Predicate Split : Type 0} (platform : ScanPlatform) (uuid db_path schema name : Text)
        (attach_options : Map String) (clause : AtClause) (bind : ScanBindData Predicate Split)
        → get_scan_function env keys at platform uuid db_path schema name attach_options
            (some clause)
          ≡ ok bind
        → (bind.path ≡ record { warehouse = db_path; dbname = schema; tablename = name })
          × TravelsTo env keys at clause bind.paimon_options
    unfolding get_scan_function at_parameters parse
    get_scan_function-TravelsTo platform uuid db_path schema name attach_options clause bind h =
        let (found, h1) = throw_if-passes (not at.has_scan_function) _ _ h in
        let (parameters, set, h2) =
          >>=-eq-ok (at_parameter env keys at clause (assign_parameters env keys attach_options []))
            _ h1 in
        let (parsed, chosen) = scan_bind-keeps env keys platform uuid _ parameters bind h2 in
        let (options, asked) =
          get_paimon_options-snapshot _ parameters bind.paimon_options chosen in
        (cc, at_parameter-TravelsTo clause _ parameters options bind.paimon_options set asked)
