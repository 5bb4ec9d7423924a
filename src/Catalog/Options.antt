-- ===== src/Catalog/Options.antt =====
-- src/paimon_storage/paimon_catalog.cpp: `GetPaimonOptions`, which turns the options of an ATTACH or a
-- table function and the secret of the path into options of paimon-cpp.
use Prim.Native.String.{len, slice, find, ◌++◌}
use text.Mathlib.Text.{starts_with}
use duckdb_paimon.Prelude.{
  ◌+◌, Bool, false, not, ◌&&◌, String, ◌==◌, Option, none, some, List, [], ◌∷◌, Map, lookup, assign,
  emplace, elem, is_some, if◌then◌else◌,
}
use duckdb_paimon.Sql.{Result, ok, throw_if, io_exception, invalid_input, ◌>>=◌, ◌>>◌}
use duckdb_paimon.DistributedScan.Transport.{OptionKeys}

-- The keys of paimon::Options and paimon::CatalogOptions.
pub record CatalogKeys : Type 0 where
  pub table : OptionKeys
  pub metastore : String
  pub uri : String
  pub token_provider : String
  pub token : String
  pub file_system : String
  pub read_batch_size : String

-- A key-value secret: its provider, and the texts of its values.
pub record Secret : Type 0 where
  pub provider : String
  pub values : Map String

-- DuckDB: `StringUtil::Lower` and `Trim`, the secret of a path, and the milliseconds of a timestamp's
-- text, which may not parse.
pub record Environment : Type 0 where
  pub lower : String → String
  pub trim : String → String
  pub lookup_secret : String → Option Secret
  pub epoch_millis_text : String → Result String
  pub standard_vector_size : String

abbrev pub manifest_formats : List String
manifest_formats = "avro" ∷ "orc" ∷ "parquet" ∷ []

abbrev pub file_formats : List String
file_formats = "avro" ∷ "blob" ∷ "orc" ∷ "parquet" ∷ []

-- `value.has_value() && !value->empty()`
unfoldable pub is_given : Option String → Bool
is_given none = false
is_given (some text) = not (text == "")

abbrev pub or_empty : Option String → String
or_empty none = ""
or_empty (some text) = text

abbrev pub assign_some : String → Option String → Map String → Map String
assign_some key none options = options
assign_some key (some text) options = assign key text options

module _ (env : Environment) (keys : CatalogKeys) where
  -- `StringUtil::CIEquals`
  unfoldable pub ci_equals : String → String → Bool
  ci_equals s t = env.lower s == env.lower t

  -- `TryGetPaimonOptionValue`: the first option whose key matches, in the order of iteration.
  unfoldable pub try_get : Map String → String → Option String
  try_get [] key = none
  try_get ((name, text) ∷ input) key = if ci_equals name key then some text else try_get input key

  unfoldable pub validated_format : List String → String → Result String
  validated_format supported raw =
      let normalized = env.trim (env.lower raw) in
      do
        throw_if (normalized == "") (invalid_input "Option cannot be empty")
        throw_if (not (elem normalized supported)) (invalid_input "Invalid value for option")
        ok normalized

  -- `GetValidatedFormatOption`
  unfoldable pub get_validated_format : Map String → String → String → List String → Result String
  get_validated_format input key default supported = elim (try_get input key) [
    | none ↦ ok default
    | some raw ↦ validated_format supported raw
  ]

  unfoldable pub format_option :
      Map String → String → List String → String → Map String → Result (Map String)
  format_option input name supported key options = elim (try_get input name) [
    | none ↦ ok options
    | some raw ↦ do
      format ← get_validated_format input name "" supported
      ok (assign key format options)
  ]

  -- The options of a REST metastore.
  unfoldable pub rest_options : Map String → Map String → Result (Map String)
  rest_options input options = do
    throw_if (not (is_given (try_get input "uri")))
        (invalid_input "URI is required when METASTORE is 'rest'")
    throw_if (not (is_given (try_get input "token_provider")))
        (invalid_input "TOKEN_PROVIDER is required when METASTORE is 'rest'")
    throw_if
        (ci_equals (or_empty (try_get input "token_provider")) "bear"
          && not (is_given (try_get input "token")))
        (invalid_input "TOKEN is required when TOKEN_PROVIDER is 'bear'")
    ok (
        assign_some keys.token (try_get input "token") (
          assign keys.token_provider (or_empty (try_get input "token_provider"))
            (assign keys.uri (or_empty (try_get input "uri")) options)))

  unfoldable pub metastore_from : Map String → Option String → Result (Map String)
  metastore_from input none = ok []
  metastore_from input (some metastore) =
      if ci_equals metastore "rest"
      then rest_options input (assign keys.metastore metastore [])
      else ok (assign keys.metastore metastore [])

  unfoldable pub metastore_options : Map String → Result (Map String)
  metastore_options input = metastore_from input (try_get input "metastore")

  unfoldable pub is_oss : String → Bool
  is_oss path = starts_with (env.lower path) "oss://"

  unfoldable pub is_s3 : String → Bool
  is_s3 path = starts_with (env.lower path) "s3://"

  unfoldable pub file_system : String → String
  file_system path = if is_oss path then "jindo" else if is_s3 path then "s3" else "local"

  -- `AddRequiredSecretOption`
  unfoldable pub add_required : Secret → String → String → Map String → Result (Map String)
  add_required secret name key options = do
    throw_if (not (is_given (lookup name secret.values)))
        (invalid_input "Missing required Paimon secret option")
    ok (assign key (or_empty (lookup name secret.values)) options)

  -- `AddOptionalSecretOption`
  unfoldable pub add_optional : Secret → String → String → Map String → Map String
  add_optional secret name key options = assign_some key (lookup name secret.values) options

  -- The text between "oss://" and the next slash, or the end.
  unfoldable pub bucket_of : String → String
  bucket_of path = slice path 6 (6 + find (slice path 6 (len path)) "/")

  unfoldable pub oss_options : String → Secret → Map String → Result (Map String)
  oss_options path secret options =
      let prefix = "fs.oss.bucket." ++ bucket_of path ++ "." in
      do
        throw_if (bucket_of path == "")
            (io_exception "Invalid OSS path, cannot extract bucket name")
        with_id ←
            add_required secret "key_id" (prefix ++ "accessKeyId")
              (assign "fs.oss.user" "paimon" options)
        with_secret ← add_required secret "secret" (prefix ++ "accessKeySecret") with_id
        add_required secret "endpoint" (prefix ++ "endpoint") with_secret

  unfoldable pub s3_options : Secret → Map String → Map String
  s3_options secret options = add_optional secret "path_style_access" "s3.path-style-access" (
      add_optional secret "region" "s3.region" (
        add_optional secret "profile" "s3.profile" (
          add_optional secret "session_token" "s3.session.token" (
            add_optional secret "endpoint" "s3.endpoint" (
              add_optional secret "secret" "s3.secret-key"
                (add_optional secret "key_id" "s3.access-key" options))))))

  unfoldable pub file_system_options : String → Secret → Map String → Result (Map String)
  file_system_options path secret options =
      if is_oss path
      then oss_options path secret options
      else if is_s3 path
      then ok (s3_options secret options)
      else ok options

  unfoldable pub secret_options : String → Option Secret → Map String → Result (Map String)
  secret_options path none options = ok options
  secret_options path (some secret) options = do
    throw_if (secret.provider == "credential_chain" && not (is_s3 path))
        (invalid_input "Paimon provider is only supported for S3 paths")
    file_system_options path secret options

  unfoldable pub snapshot_options : Map String → Map String → Result (Map String)
  snapshot_options input options =
      let by_id = try_get input "snapshot_from_id" in
      let by_time = try_get input "snapshot_from_timestamp" in
      do
        throw_if (is_some by_id && is_some by_time)
            (invalid_input "Cannot specify both 'snapshot_from_id' and 'snapshot_from_timestamp'")
        elim by_time [
          | none ↦ ok (assign_some keys.table.scan_snapshot_id by_id options)
          | some text ↦ do
            millis ← env.epoch_millis_text text
            ok (
                assign keys.table.scan_timestamp_millis millis
                  (assign_some keys.table.scan_snapshot_id by_id options))
        ]

  -- `GetPaimonOptions`
  unfoldable pub get_paimon_options : String → Map String → Result (Map String)
  get_paimon_options path input = do
    store ← metastore_options input
    manifest ←
        format_option input "manifest_format" manifest_formats keys.table.manifest_format store
    file ← format_option input "file_format" file_formats keys.table.file_format manifest
    authorized ←
        secret_options path (env.lookup_secret path)
          (assign keys.file_system (file_system path) file)
    snapshot_options input (emplace keys.read_batch_size env.standard_vector_size authorized)
