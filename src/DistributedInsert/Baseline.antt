-- ===== src/DistributedInsert/Baseline.antt =====
-- What `ValidateTargetBaseline` makes sure of: the table is the one that the write was planned for.
use duckdb_paimon.Prelude.{
  ◌≡◌, sym, ap, ◌∙◌, Bool, true, false, not, ◌||◌, String, ◌==◌, eq_iff, some, List, [], ◌∷◌, Map,
  lookup, arith, both_true, both_false, true_of_not, same_list, eq_of_same_list, eq_of_same_bool,
  same_bool, inl, inr, Option-cases,
}
use duckdb_paimon.Prelude.Int.{ℤ, eqb_ℤ, eq_of_parts}
use duckdb_paimon.Sql.{LogicalType, ok}
use duckdb_paimon.TablePath.{Text, text_eq}
use duckdb_paimon.Catalog.Backend.{Backend}
use duckdb_paimon.DistributedScan.Matching.{text_eq→eq}
use duckdb_paimon.DistributedInsert.Actions.{
  reads-returns, raise_if-passes, raise_if-ends, next_of-returns,
}
use duckdb_paimon.DistributedInsert.Identities.{Platform}
use duckdb_paimon.DistributedInsert.Target.{TargetState, same_names}
use duckdb_paimon.DistributedInsert.Operator.{
  PaimonInsert, included, same_map, schema_differs, snapshot_differs, coordinator_catalog,
}
use duckdb_paimon.DistributedInsert.Coordinator.{
  CoordinatorState, Outside, check_baseline, validate_target_baseline, load_current,
}

-- Types that compare equal are equal.
pub record ComparesTypes (p : Platform) : Type 0 where
  pub same_type_eq : (x y : LogicalType) → p.same_type x y ≡ true → x ≡ y

included-lookup :
    (m n : Map String) (key text : String)
    → included m n ≡ true
    → lookup key m ≡ some text
    → lookup key n ≡ some text
unfolding included lookup
included-lookup [] n key text h e = cc
included-lookup ((k, v) ∷ m) n key text h e = elim (Option-cases (lookup k n)) [
  | inl missing ↦ absurd (ground arith)
  | inr (w, found) ↦ ground (arith, included-lookup m n key text, eq_iff k key, eq_iff w v)
]

-- Maps that compare equal have the same entries.
same_map-lookup :
    (m n : Map String) → same_map m n ≡ true → (key : String) → lookup key m ≡ lookup key n
unfolding same_map
same_map-lookup m n h key =
    let (there, back) = both_true (included m n) (included n m) h in
    elim (Option-cases (lookup key m)) [
      | inr (text, e) ↦ e ∙ sym (included-lookup m n key text there e)
      | inl missing ↦ elim (Option-cases (lookup key n)) [
        | inl missing' ↦ missing ∙ sym missing'
        | inr (text, e) ↦ absurd (let e' = included-lookup n m key text back e in cc)
      ]
    ]

same_names→eq : (xs ys : List String) → same_names xs ys ≡ true → xs ≡ ys
same_names→eq = eq_of_same_list (λ x y. x == y) (λ x y h. (eq_iff x y).0 h)

eqb_ℤ→eq : (x y : ℤ) → eqb_ℤ x y ≡ true → x ≡ y
eqb_ℤ→eq x y h = eq_of_parts x y (ground arith)

-- The table is the planned one, by everything that was recorded of it.
pub record Unchanged (insert : PaimonInsert) (current : TargetState) : Type 0 where
  pub uuid : current.table_uuid ≡ insert.target.table_uuid
  pub path : current.table_path ≡ insert.target.table_path
  pub json : current.table_schema_json ≡ insert.target.table_schema_json
  pub schema_id : current.schema_id ≡ insert.target.schema_id
  pub append_only : current.append_only ≡ insert.target.append_only
  pub names : current.field_names ≡ insert.target.input_names
  pub types : current.field_types ≡ insert.target.input_types
  pub part_keys : current.part_keys ≡ insert.part_keys
  pub primary_keys : current.primary_keys ≡ insert.target.primary_keys
  pub options :
      (key : String) → lookup key current.table_options ≡ lookup key insert.target.table_options
  pub null_name : current.null_part_name ≡ insert.target.null_part_name
  pub has_snapshot : current.has_snapshot ≡ insert.target.has_snapshot
  pub snapshot_id : current.snapshot_id ≡ insert.target.snapshot_id

-- The tests that `==` of texts and the like decide.
eq_of_not_text : (x y : Text) → not (text_eq x y) ≡ false → x ≡ y
eq_of_not_text x y h = text_eq→eq x y (true_of_not _ h)

eq_of_not_ℤ : (x y : ℤ) → not (eqb_ℤ x y) ≡ false → x ≡ y
eq_of_not_ℤ x y h = eqb_ℤ→eq x y (true_of_not _ h)

eq_of_not_bool : (x y : Bool) → not (same_bool x y) ≡ false → x ≡ y
eq_of_not_bool x y h = eq_of_same_bool x y (true_of_not _ h)

eq_of_not_string : (x y : String) → not (x == y) ≡ false → x ≡ y
eq_of_not_string x y h = (eq_iff x y).0 (true_of_not _ h)

eq_of_not_names : (x y : List String) → not (same_names x y) ≡ false → x ≡ y
eq_of_not_names x y h = same_names→eq x y (true_of_not _ h)

eight_false :
    (a b c d e f g h : Bool)
    → (a || b || c || d || e || f || g || h) ≡ false
    → (a ≡ false)
      × (b ≡ false)
      × (c ≡ false)
      × (d ≡ false)
      × (e ≡ false)
      × (f ≡ false)
      × (g ≡ false)
      × (h ≡ false)
eight_false a b c d e f g h none_true = ground arith

-- The parts of the comparison of the schema.
schema_differs-parts :
    (p : Platform) (insert : PaimonInsert) (current : TargetState)
    → schema_differs p insert current ≡ false
    → (not (eqb_ℤ current.schema_id insert.target.schema_id) ≡ false)
      × (not (same_bool current.append_only insert.target.append_only) ≡ false)
      × (not (same_names current.field_names insert.target.input_names) ≡ false)
      × (not (same_list p.same_type current.field_types insert.target.input_types) ≡ false)
      × (not (same_names current.part_keys insert.part_keys) ≡ false)
      × (not (same_names current.primary_keys insert.target.primary_keys) ≡ false)
      × (not (same_map current.table_options insert.target.table_options) ≡ false)
      × (not (current.null_part_name == insert.target.null_part_name) ≡ false)
unfolding schema_differs
schema_differs-parts p insert current h = eight_false _ _ _ _ _ _ _ _ h

module _ {b : Backend} {Message : Type 0} (o : Outside b Message) where
  check_baseline-Unchanged :
      (insert : PaimonInsert) (current : TargetState) (s s' : CoordinatorState b Message)
      → ComparesTypes o.platform
      → check_baseline o insert current s ≡ (ok tt, s')
      → Unchanged insert current × (s ≡ s')
  unfolding check_baseline snapshot_differs
  check_baseline-Unchanged insert current s s' types h =
      let (uuid, h1) =
        raise_if-passes (not (current.table_uuid == insert.target.table_uuid)) _ s _ h in
      let (path, h2) =
        raise_if-passes (not (current.table_path == insert.target.table_path)) _ s _ h1 in
      let (schema, h3) =
        raise_if-passes
          (schema_differs o.platform insert current
            || not (text_eq current.table_schema_json insert.target.table_schema_json))
          _ s _ h2 in
      let (snapshot, h4) = raise_if-ends (snapshot_differs o.platform insert current) _ s h3 in
      let (differs, json) =
        both_false (schema_differs o.platform insert current)
          (not (text_eq current.table_schema_json insert.target.table_schema_json)) schema in
      let (has, id) =
        both_false (not (same_bool current.has_snapshot insert.target.has_snapshot))
          (not (eqb_ℤ current.snapshot_id insert.target.snapshot_id)) snapshot in
      let parts = schema_differs-parts o.platform insert current differs in
      (
        record {
          uuid = eq_of_not_string _ _ uuid;
          path = eq_of_not_string _ _ path;
          json = eq_of_not_text _ _ json;
          schema_id = eq_of_not_ℤ _ _ parts.0;
          append_only = eq_of_not_bool _ _ parts.1;
          names = eq_of_not_names _ _ parts.2;
          types =
              eq_of_same_list o.platform.same_type types.same_type_eq _ _ (true_of_not _ parts.3);
          part_keys = eq_of_not_names _ _ parts.4;
          primary_keys = eq_of_not_names _ _ parts.5;
          options = same_map-lookup _ _ (true_of_not _ parts.6);
          null_name = eq_of_not_string _ _ parts.7;
          has_snapshot = eq_of_not_bool _ _ has;
          snapshot_id = eq_of_not_ℤ _ _ id;
        },
        h4,
      )

  -- A validation that ends without an exception, on a platform whose comparison of types decides their
  -- equality, has read a target that is the planned one in every field that was recorded.
  pub validate_target_baseline-Unchanged :
      (insert : PaimonInsert) (s s' : CoordinatorState b Message)
      → ComparesTypes o.platform
      → validate_target_baseline o insert s ≡ (ok tt, s')
      → (current : TargetState) × (load_current o insert s ≡ (ok current, s'))
        × Unchanged insert current
  unfolding validate_target_baseline
  validate_target_baseline-Unchanged insert s s' types h =
      let (schema, e, h1) = reads-returns (coordinator_catalog insert.schema) s _ h in
      let (current, s1, loaded, h2) = next_of-returns (load_current o insert s) _ h1 in
      let (unchanged, same) = check_baseline-Unchanged insert current s1 s' types h2 in
      (current, loaded ∙ ap (λ x. (ok current, x)) same, unchanged)
