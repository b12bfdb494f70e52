-- ===== src/Broker/Rotation.antt =====
-- internal/broker/rotation.go and sqlite.go: the rotation of a wrapping key. The state is the tables
-- key_versions, rotation_operations and rotation_verifications; a transaction that fails returns an
-- error, and the caller keeps the state. A time is the number of its nanoseconds, 0 for the zero time,
-- and `clock` is time.Now().
pub mod Operations
pub mod Invariant
pub mod Start
pub mod Activate
pub mod Lifecycle
pub mod Reach
pub mod Next
pub mod Held
pub mod Loads
use openbao_attested_unseal.Prelude.{
  ℕ, ◌+◌, Bool, true, false, not, ◌&&◌, ◌||◌, Option, none, some, List, [], ◌∷◌, ◌++◌, ltb, ◌==◌,
  if◌then◌else◌,
}
use openbao_attested_unseal.Prelude.Result.{
  Result, ok, err, rotation_not_found, rotation_in_progress, rotation_invalid_transition, other,
  ◌>>=◌, ◌>>◌, guard, wrap_err,
}
use openbao_attested_unseal.Prelude.Text.{Text, codes, text_eq, is_empty}
use openbao_attested_unseal.Prelude.Space.{is_blank}
use openbao_attested_unseal.Keyring.Key.{
  KeyRef, Status, pending, active, decrypt_only, valid_identifier,
}
use openbao_attested_unseal.Keyprotection.{ProtectedKey, validate_protected_key}
use openbao_attested_unseal.Broker.Keys.{
  of_key, same_status, uint32_key_version, next_rotation_versions, insert_key, update_key_status,
}

pub data RotationStatus : Type 0 where
  started activated cancelled_rotation : RotationStatus
  unrecognized_rotation : Text → RotationStatus

pub record RotationOperation : Type 0 where
  pub operation_id : Text
  pub cluster_id : Text
  pub key_id : Text
  pub from_version : ℕ
  pub to_version : ℕ
  pub status : RotationStatus
  pub created_at : ℕ
  pub updated_at : ℕ
  pub activated_at : Option ℕ

pub record RotationVerification : Type 0 where
  pub operation_id : Text
  pub name : Text
  pub verified_at : ℕ
  pub detail : Text

pub record RotationTables : Type 0 where
  pub keys : List ProtectedKey
  pub operations : List RotationOperation
  pub verifications : List RotationVerification

pub record RotationStartRequest : Type 0 where
  pub operation_id : Text
  pub key : ProtectedKey
  pub created_at : ℕ

abbrev pub rotation_verification_openbao_root : Text
rotation_verification_openbao_root = codes "openbao-root"

abbrev pub rotation_verification_restart : Text
rotation_verification_restart = codes "restart"

abbrev pub rotation_verification_key_version : Text
rotation_verification_key_version = codes "key-version"

abbrev pub is_started : RotationStatus → Bool
is_started started = true
is_started _ = false

-- validateRotationStart
unfoldable pub validate_rotation_start : RotationStartRequest → Result (Unit {0})
validate_rotation_start r = do
  guard (not (is_empty r.operation_id)) rotation_invalid_transition
  wrap_err (validate_protected_key r.key) rotation_invalid_transition
  guard (valid_identifier r.key.ref.cluster_id) rotation_invalid_transition
  guard (valid_identifier r.key.ref.key_id) rotation_invalid_transition
  guard (valid_identifier r.key.policy_id) rotation_invalid_transition
  guard (same_status r.key.status pending) rotation_invalid_transition

-- validateRotationVerification
unfoldable pub validate_rotation_verification : Text → Text → Result (Unit {0})
validate_rotation_verification name detail = do
  guard
      (text_eq name rotation_verification_openbao_root
        || (text_eq name rotation_verification_restart
            || text_eq name rotation_verification_key_version))
      rotation_invalid_transition
  guard (not (is_blank detail)) other

-- The operation is of that key and started.
abbrev pub started_for : Text → Text → RotationOperation → Bool
started_for cluster_id key_id o =
    text_eq o.cluster_id cluster_id && (text_eq o.key_id key_id && is_started o.status)

-- ensureNoStartedRotation
unfoldable pub ensure_no_started_rotation : Text → Text → List RotationOperation → Result (Unit {0})
ensure_no_started_rotation cluster_id key_id [] = ok tt
ensure_no_started_rotation cluster_id key_id (o ∷ os) =
    if started_for cluster_id key_id o
    then err rotation_in_progress
    else ensure_no_started_rotation cluster_id key_id os

unfoldable pub find_operation : Text → List RotationOperation → Option RotationOperation
find_operation id [] = none
find_operation id (o ∷ os) = if text_eq o.operation_id id then some o else find_operation id os

-- queryRotationOperation
unfoldable pub query_rotation_operation : Text → List RotationOperation → Result RotationOperation
query_rotation_operation id ops = elim (find_operation id ops) [
  | none ↦ err rotation_not_found
  | some o ↦ do _ ← uint32_key_version o.from_version; _ ← uint32_key_version o.to_version; ok o
]

-- INSERT INTO rotation_operations, with its primary key and the index of the started operations
unfoldable pub insert_operation :
    RotationOperation → List RotationOperation → Result (List RotationOperation)
insert_operation o ops = elim (find_operation o.operation_id ops) [
  | some _ ↦ err other
  | none ↦ do
    wrap_err (ensure_no_started_rotation o.cluster_id o.key_id ops) other
    ok (ops ++ o ∷ [])
]

abbrev pub started_operation : RotationStartRequest → ℕ → ℕ → ℕ → RotationOperation
started_operation r from_version to_version now = record {
  operation_id = r.operation_id;
  cluster_id = r.key.ref.cluster_id;
  key_id = r.key.ref.key_id;
  from_version = from_version;
  to_version = to_version;
  status = started;
  created_at = now;
  updated_at = now;
  activated_at = none;
}

-- StartRotation
unfoldable pub start_rotation :
    RotationStartRequest → ℕ → RotationTables → Result (RotationOperation × RotationTables)
start_rotation r clock t = do
  validate_rotation_start r
  let now = if r.created_at == 0 then clock else r.created_at
  ensure_no_started_rotation r.key.ref.cluster_id r.key.ref.key_id t.operations
  (from_version, to_version) ← next_rotation_versions r.key.ref.cluster_id r.key.ref.key_id t.keys
  guard (r.key.ref.version == to_version) rotation_invalid_transition
  keys ← insert_key r.key t.keys
  let o = started_operation r from_version to_version now
  ops ← insert_operation o t.operations
  ok (o, record { keys = keys; operations = ops; verifications = t.verifications })

-- The reference of a version of the key that an operation is about.
abbrev pub version_ref : RotationOperation → ℕ → KeyRef
version_ref o version = record { cluster_id = o.cluster_id; key_id = o.key_id; version = version }

abbrev pub activate_operation : ℕ → RotationOperation → RotationOperation
activate_operation now o = record {
  operation_id = o.operation_id;
  cluster_id = o.cluster_id;
  key_id = o.key_id;
  from_version = o.from_version;
  to_version = o.to_version;
  status = activated;
  created_at = o.created_at;
  updated_at = now;
  activated_at = some now;
}

-- UPDATE rotation_operations SET status = …, activated_at = …, updated_at = … WHERE operation_id = ?
unfoldable pub mark_activated : Text → ℕ → List RotationOperation → List RotationOperation
mark_activated id now [] = []
mark_activated id now (o ∷ os) =
    (if text_eq o.operation_id id then activate_operation now o else o) ∷ mark_activated id now os

-- What ActivateRotation does with the operation that it has read.
unfoldable pub activate_read :
    RotationOperation → ℕ → RotationTables → Result (RotationOperation × RotationTables)
activate_read o now t = elim (o.status) [
  | activated ↦ ok (o, t)
  | started ↦ do
    demoted ← update_key_status (version_ref o o.from_version) active decrypt_only t.keys
    promoted ← update_key_status (version_ref o o.to_version) pending active demoted
    ok (
      activate_operation now o,
      record {
        keys = promoted;
        operations = mark_activated o.operation_id now t.operations;
        verifications = t.verifications;
      },
    )
  | _ ↦ err rotation_invalid_transition
]

-- ActivateRotation
unfoldable pub activate_rotation :
    Text → ℕ → ℕ → RotationTables → Result (RotationOperation × RotationTables)
activate_rotation id at clock t = do
  let now = if at == 0 then clock else at
  o ← query_rotation_operation id t.operations
  activate_read o now t

-- INSERT INTO rotation_verifications … ON CONFLICT(operation_id, name) DO UPDATE
unfoldable pub upsert_verification :
    RotationVerification → List RotationVerification → List RotationVerification
upsert_verification v [] = v ∷ []
upsert_verification v (w ∷ ws) =
    let rest = upsert_verification v ws in
    if text_eq w.operation_id v.operation_id && text_eq w.name v.name then v ∷ ws else w ∷ rest

-- RecordRotationVerification
unfoldable pub record_rotation_verification :
    Text → Text → Text → ℕ → ℕ → RotationTables → Result (RotationVerification × RotationTables)
record_rotation_verification id name detail at clock t = do
  validate_rotation_verification name detail
  let now = if at == 0 then clock else at
  _ ← query_rotation_operation id t.operations
  let v : RotationVerification = record {
    operation_id = id;
    name = name;
    verified_at = now;
    detail = detail;
  }
  ok (
    v,
    record {
      keys = t.keys;
      operations = t.operations;
      verifications = upsert_verification v t.verifications;
    },
  )
