-- ===== src/Catalog/Validation.antt =====
-- What input `GetPaimonOptions` accepts.
use duckdb_paimon.Prelude.{
  ◌≡◌, refl, Bool, true, false, not, ◌&&◌, ◌||◌, String, ◌==◌, Option, none, some, List, [], Map,
  arith, elem, is_some, assign, Bool-cases, inl, inr,
}
use duckdb_paimon.Sql.{ok, >>=-eq-ok}
use duckdb_paimon.Catalog.Options.{
  CatalogKeys, Environment, Secret, manifest_formats, file_formats, is_given, ci_equals, try_get,
  validated_format, get_validated_format, format_option, or_empty, rest_options, metastore_from,
  metastore_options, is_s3, secret_options, snapshot_options, get_paimon_options,
}

module _ (env : Environment) (keys : CatalogKeys) where
  -- A format that is given is one of the supported ones, but for case and blanks.
  abbrev pub format_fits : Option String → List String → Bool
  format_fits none supported = true
  format_fits (some raw) supported = elem (env.trim (env.lower raw)) supported

  -- A REST metastore has its URI and token provider, and the token that "bear" needs.
  abbrev pub rest_complete : Map String → Bool
  rest_complete input =
      is_given (try_get env keys input "uri")
      && is_given (try_get env keys input "token_provider")
      && (not (ci_equals env keys (or_empty (try_get env keys input "token_provider")) "bear")
          || is_given (try_get env keys input "token"))

  abbrev pub metastore_complete : Map String → Option String → Bool
  metastore_complete input none = true
  metastore_complete input (some metastore) =
      not (ci_equals env keys metastore "rest") || rest_complete input

  abbrev pub secret_fits : String → Option Secret → Bool
  secret_fits path none = true
  secret_fits path (some secret) =
      not (secret.provider == "credential_chain") || is_s3 env keys path

  format_option-fits :
      (input : Map String) (name : String) (supported : List String) (key : String)
      (options result : Map String)
      → format_option env keys input name supported key options ≡ ok result
      → format_fits (try_get env keys input name) supported ≡ true
  unfolding format_option get_validated_format validated_format
  format_option-fits input name supported key options result h = ground arith

  rest_options_complete :
      (input options result : Map String)
      → rest_options env keys input options ≡ ok result
      → rest_complete input ≡ true
  unfolding rest_options
  rest_options_complete input options result h = ground arith

  metastore_from_complete :
      (input : Map String) (metastore : Option String) (result : Map String)
      → metastore_from env keys input metastore ≡ ok result
      → metastore_complete input metastore ≡ true
  unfolding metastore_from
  metastore_from_complete input none result h = refl
  metastore_from_complete input (some metastore) result h =
      elim (Bool-cases (ci_equals env keys metastore "rest")) [
        | inr other ↦ rw other refl
        | inl rest ↦ rw (
          rest,
          rest_options_complete input (assign keys.metastore metastore []) result (ground arith),
        )
      ]

  secret_options-fits :
      (path : String) (secret : Option Secret) (options result : Map String)
      → secret_options env keys path secret options ≡ ok result
      → secret_fits path secret ≡ true
  unfolding secret_options
  secret_options-fits path none options result h = refl
  secret_options-fits path (some secret) options result h = ground arith

  pub snapshot_options-single :
      (input options result : Map String)
      → snapshot_options env keys input options ≡ ok result
      → (is_some (try_get env keys input "snapshot_from_id")
          && is_some (try_get env keys input "snapshot_from_timestamp"))
        ≡ false
  unfolding snapshot_options
  snapshot_options-single input options result h = ground arith

  -- Where `GetPaimonOptions` gives options, its input was complete and consistent: the formats that are
  -- given are supported ones, a REST metastore has its URI, its token provider and the token that
  -- "bear" needs, a credential chain is for an S3 path, and at most one snapshot is chosen.
  pub get_paimon_options_complete :
      (path : String) (input result : Map String)
      → get_paimon_options env keys path input ≡ ok result
      → (format_fits (try_get env keys input "manifest_format") manifest_formats ≡ true)
        × (format_fits (try_get env keys input "file_format") file_formats ≡ true)
        × (metastore_complete input (try_get env keys input "metastore") ≡ true)
        × (secret_fits path (env.lookup_secret path) ≡ true)
        × ((is_some (try_get env keys input "snapshot_from_id")
              && is_some (try_get env keys input "snapshot_from_timestamp"))
            ≡ false)
  unfolding get_paimon_options metastore_options
  get_paimon_options_complete path input result h =
      let (store, e1, h1) = >>=-eq-ok (metastore_options env keys input) _ h in
      let (manifest, e2, h2) =
        >>=-eq-ok (format_option env keys input "manifest_format" _ _ store) _ h1 in
      let (file, e3, h3) =
        >>=-eq-ok (format_option env keys input "file_format" _ _ manifest) _ h2 in
      let (authorized, e4, h4) =
        >>=-eq-ok (secret_options env keys path (env.lookup_secret path) _) _ h3 in
      (
        format_option-fits input "manifest_format" manifest_formats _ store manifest e2,
        format_option-fits input "file_format" file_formats _ manifest file e3,
        metastore_from_complete input (try_get env keys input "metastore") store e1,
        secret_options-fits path (env.lookup_secret path) _ authorized e4,
        snapshot_options-single input _ result h4,
      )
