-- ===== src/DistributedInsert/Identities.antt =====
-- The identities of a distributed write: tasks and their attempts, the users and file prefixes of the
-- workers, and the commit identifier.
use Prim.Native.Nat.{bit_and, bit_and-bitwise, digits}
use duckdb_paimon.Prelude.{
  ℕ, zero, suc, ◌+◌, ◌-◌, ◌/◌, ◌≤◌, ◌<◌, min, ◌≡◌, Bool, true, false, not, ◌&&◌, String, List, [],
  ◌∷◌, ◌++◌, Option, none, some, arith, eqb, ltb, is_empty, length, if◌then◌else◌,
}
use duckdb_paimon.Sql.{LogicalType, Result, ok, throw, throw_if, invalid_input, ◌>>◌}
use duckdb_paimon.TablePath.{Text}
use duckdb_paimon.DistributedScan.SplitIds.{all_digits}
use duckdb_paimon.DistributedScan.Estimates.{index_maximum}

-- The functions of DuckDB that the code calls on texts and types.
pub record Platform : Type 0 where
  -- `UUID::FromString` in its strict form
  pub is_uuid : Text → Bool
  -- `MD5Context` over all bytes added, `FinishHex`
  pub md5_hex : Text → Text
  -- `Hash`, a 64-bit value
  pub hash : Text → ℕ
  -- `StringUtil::Split` at the character '.'
  pub split_dots : Text → List Text
  -- `==` of logical types
  pub same_type : LogicalType → LogicalType → Bool
  -- The string of these bytes.
  pub string_of : Text → String

-- `CheckedAdd`
unfoldable pub checked_add : ℕ → ℕ → String → Result ℕ
checked_add left right message =
    if ltb (index_maximum - left) right then throw (invalid_input message) else ok (left + right)

-- A sum that is returned is exact and fits in an idx_t; a sum that fits is returned.
pub checked_add-IsExact :
    (left right : ℕ) (message : String)
    → left ≤ index_maximum
    → ((total : ℕ)
        → checked_add left right message ≡ ok total
        → (total ≡ left + right) × (total ≤ index_maximum))
      × (left + right ≤ index_maximum → checked_add left right message ≡ ok (left + right))
unfolding checked_add
checked_add-IsExact left right message h = (λ total e. ground arith, λ fits. ground arith)

-- The text is empty, or longer than one character with '0' in front.
unfoldable pub bad_start : Text → Bool
bad_start [] = true
bad_start (c ∷ []) = false
bad_start (c ∷ d ∷ rest) = eqb c b'0'

-- `ValidateVaneTaskIdentityComponent`
unfoldable pub validate_component : Text → Result (Unit {0})
validate_component component = do
  throw_if (bad_start component)
      (invalid_input "Distributed Paimon INSERT has an invalid Vane identity")
  throw_if (not (all_digits component))
      (invalid_input "Distributed Paimon INSERT has an invalid Vane identity")
  ok tt

-- What follows the prefix: `compare(0, size, prefix)` and `substr(size)`.
unfoldable pub after_prefix : Text → Text → Option Text
after_prefix [] text = some text
after_prefix (p ∷ prefix) [] = none
after_prefix (p ∷ prefix) (c ∷ text) = if eqb p c then after_prefix prefix text else none

abbrev pub dot : Text
dot = b'.' ∷ []

-- The switch on the components behind the prefix.
unfoldable pub logical_of : Text → List Text → Result Text
logical_of prefix (fragment ∷ partition ∷ attempt ∷ []) = do
  validate_component fragment
  validate_component partition
  validate_component attempt
  ok (prefix ++ (fragment ++ (dot ++ partition)))
logical_of prefix _ =
    throw (invalid_input "Distributed Paimon INSERT has an invalid Vane task attempt identity")

unfoldable pub logical_from : (Text → List Text) → Text → Option Text → Result Text
logical_from split prefix none =
    throw (
      invalid_input "Distributed Paimon INSERT task attempt does not match its Vane query identity")
logical_from split prefix (some rest) = logical_of prefix (split rest)

-- `CompactUUID`
unfoldable pub compact_uuid : Text → Text
compact_uuid [] = []
compact_uuid (c ∷ uuid) = let rest = compact_uuid uuid in if eqb c b'-' then rest else c ∷ rest

abbrev vane : Text
vane = b'v' ∷ b'a' ∷ b'n' ∷ b'e' ∷ []

abbrev pub max_int64 : ℕ
max_int64 = 9223372036854775807

-- The mask and the replacement of 0 in `CreateCommitIdentifier`.
unfoldable pub positive_id : ℕ → ℕ
positive_id hash = let value = bit_and hash max_int64 in if eqb value 0 then 1 else value

-- `ExpectedFragmentId` of an operation and an attempt.
unfoldable pub expected_fragment_id : Text → Text → Text
expected_fragment_id operation_id task_attempt_id = operation_id ++ (b':' ∷ task_attempt_id)

module _ (p : Platform) where
  -- `IsCanonicalUUID`; `BaseUUID::STRING_SIZE` is 36.
  unfoldable pub is_canonical_uuid : Text → Bool
  is_canonical_uuid text = eqb (length text) 36 && p.is_uuid text

  -- `VaneLogicalTaskIdentity`
  unfoldable pub logical_task_identity : Text → Text → Result Text
  logical_task_identity query_id task_attempt_id =
      let prefix = query_id ++ dot in
      logical_from p.split_dots prefix
        (if is_empty query_id then none else after_prefix prefix task_attempt_id)

  -- `AttemptDigest`
  unfoldable pub attempt_digest : Text → Text → Text
  attempt_digest query_id task_attempt_id = p.md5_hex (query_id ++ (0 ∷ task_attempt_id))

  -- `WorkerCommitUser`, of the operation and of the task
  unfoldable pub worker_commit_user : Text → Text → Text → Text
  worker_commit_user operation_id query_id task_attempt_id =
      vane
      ++ (b'-' ∷ (compact_uuid operation_id ++ (b'-' ∷ attempt_digest query_id task_attempt_id)))

  -- `WorkerDataFilePrefix`
  unfoldable pub worker_data_file_prefix : Text → Text → Text → Text
  worker_data_file_prefix operation_id query_id task_attempt_id =
      vane
      ++ (b'_' ∷ (compact_uuid operation_id ++ (b'_' ∷ attempt_digest query_id task_attempt_id)))

  -- The commit user of the coordinator.
  unfoldable pub coordinator_commit_user : Text → Text
  coordinator_commit_user operation_id = vane ++ (b'-' ∷ compact_uuid operation_id)

  -- `CreateCommitIdentifier`
  unfoldable pub create_commit_identifier : Text → ℕ
  create_commit_identifier operation_id = positive_id (p.hash operation_id)

-- A conjunction of words is no larger than either.
digits-le : (n a b : ℕ) → digits (λ b. zero) min n a b ≤ b
digits-le zero a b = omega arith
digits-le (suc n) zero b = omega arith
digits-le (suc n) (suc a) b = omega (arith, digits-le n (suc a / 2) (b / 2))

bit_and-le : (a b : ℕ) → bit_and a b ≤ b
bit_and-le a b = omega (arith, bit_and-bitwise a b, digits-le a a b)

-- A commit identifier is positive and fits in an int64.
pub create_commit_identifier-InRange :
    (p : Platform) (operation_id : Text)
    → (0 < create_commit_identifier p operation_id)
      × (create_commit_identifier p operation_id ≤ max_int64)
unfolding create_commit_identifier positive_id
create_commit_identifier-InRange p operation_id =
    let bound = bit_and-le (p.hash operation_id) max_int64 in (ground arith, ground arith)
