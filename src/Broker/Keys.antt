-- ===== src/Broker/Keys.antt =====
-- internal/broker/sqlite.go: the table key_versions. A row is the record that a query reads back; its
-- column created_at is never read. A query or a statement that meets a failing database is not
-- modelled; the constraints of the table are.
pub mod Table
pub mod Ordered
pub mod Opened
use openbao_attested_unseal.Prelude.{
  ℕ, ◌+◌, Bool, true, false, not, ◌&&◌, ◌||◌, Option, none, some, List, [], ◌∷◌, ◌++◌, ltb, leb,
  ◌==◌, if◌then◌else◌,
}
use openbao_attested_unseal.Prelude.Result.{
  Result, ok, err, key_not_found, key_not_usable, rotation_invalid_transition, other, ◌>>=◌, ◌>>◌,
  guard,
}
use openbao_attested_unseal.Prelude.Text.{Text, text_eq}
use openbao_attested_unseal.Keyring.Key.{
  KeyRef, Status, pending, active, decrypt_only, retired, unrecognized, is_active, version_limit,
}
use openbao_attested_unseal.Keyring.Ring.{same_ref}
use openbao_attested_unseal.Keyprotection.{ProtectedKey, validate_protected_key}

-- WHERE cluster_id = ? AND key_id = ?
abbrev pub of_key : Text → Text → KeyRef → Bool
of_key cluster_id key_id r = text_eq r.cluster_id cluster_id && text_eq r.key_id key_id

-- status = ?
abbrev pub same_status : Status → Status → Bool
same_status pending pending = true
same_status active active = true
same_status decrypt_only decrypt_only = true
same_status retired retired = true
same_status (unrecognized a) (unrecognized b) = text_eq a b
same_status _ _ = false

-- The row of a primary key.
unfoldable pub find_key : KeyRef → List ProtectedKey → Option ProtectedKey
find_key r [] = none
find_key r (k ∷ ks) = if same_ref k.ref r then some k else find_key r ks

-- SQLiteStore.ProtectedKey
unfoldable pub protected_key : KeyRef → List ProtectedKey → Result ProtectedKey
protected_key r keys = elim (find_key r keys) [
  | none ↦ err key_not_found
  | some k ↦ validate_protected_key k >> ok k
]

-- ORDER BY key_id, version, within a cluster
abbrev pub before : KeyRef → KeyRef → Bool
before a b = before_text a.key_id b.key_id
  where
    before_text : Text → Text → Bool
    before_text [] [] = leb a.version b.version
    before_text [] (d ∷ u) = true
    before_text (c ∷ t) [] = false
    before_text (c ∷ t) (d ∷ u) = ltb c d || (c == d && before_text t u)

unfoldable pub insert_ordered : ProtectedKey → List ProtectedKey → List ProtectedKey
insert_ordered k [] = k ∷ []
insert_ordered k (l ∷ ls) =
    let rest = insert_ordered k ls in if before k.ref l.ref then k ∷ (l ∷ ls) else l ∷ rest

-- SELECT … WHERE cluster_id = ? ORDER BY key_id, version
unfoldable pub select_cluster : Text → List ProtectedKey → List ProtectedKey
select_cluster cluster_id [] = []
select_cluster cluster_id (k ∷ ks) =
    let rest = select_cluster cluster_id ks in
    if text_eq k.ref.cluster_id cluster_id then insert_ordered k rest else rest

-- The loop of SQLiteStore.ProtectedKeys over the rows.
unfoldable pub check_rows : List ProtectedKey → Result (List ProtectedKey)
check_rows [] = ok []
check_rows (k ∷ ks) = do
  guard (not (k.ref.version == 0 || ltb version_limit k.ref.version)) other
  validate_protected_key k
  rest ← check_rows ks
  ok (k ∷ rest)

-- SQLiteStore.ProtectedKeys
unfoldable pub protected_keys : Text → List ProtectedKey → Result (List ProtectedKey)
protected_keys cluster_id keys = do
  records ← check_rows (select_cluster cluster_id keys)
  elim records [ [] ↦ err key_not_found | k ∷ ks ↦ ok (k ∷ ks) ]

-- The version of the active row of a key, the first query of nextRotationVersions.
unfoldable pub query_active : Text → Text → List ProtectedKey → Option ℕ
query_active cluster_id key_id [] = none
query_active cluster_id key_id (k ∷ ks) =
    if of_key cluster_id key_id k.ref && is_active k.status
    then some k.ref.version
    else query_active cluster_id key_id ks

abbrev pub max_of : ℕ → ℕ → ℕ
max_of a b = if ltb a b then b else a

-- SELECT MAX(version), 0 where no row has the key
unfoldable pub query_max : Text → Text → List ProtectedKey → ℕ
query_max cluster_id key_id [] = 0
query_max cluster_id key_id (k ∷ ks) =
    let rest = query_max cluster_id key_id ks in
    if of_key cluster_id key_id k.ref then max_of k.ref.version rest else rest

-- uint32KeyVersion
abbrev pub uint32_key_version : ℕ → Result ℕ
uint32_key_version n = if n == 0 || ltb version_limit n then err other else ok n

-- nextRotationVersions
unfoldable pub next_rotation_versions : Text → Text → List ProtectedKey → Result (ℕ × ℕ)
next_rotation_versions cluster_id key_id keys = elim (query_active cluster_id key_id keys) [
  | none ↦ err key_not_usable
  | some v ↦ do
    let m = query_max cluster_id key_id keys
    guard (ltb m version_limit) rotation_invalid_transition
    from_version ← uint32_key_version v
    to_version ← uint32_key_version (m + 1)
    ok (from_version, to_version)
]

-- A row of the same key that is active, of another version: the index key_versions_one_active.
unfoldable pub has_other_active : KeyRef → List ProtectedKey → Bool
has_other_active r [] = false
has_other_active r (k ∷ ks) =
    (of_key r.cluster_id r.key_id k.ref && (is_active k.status && not (k.ref.version == r.version)))
    || has_other_active r ks

-- INSERT INTO key_versions, with the primary key and the index.
unfoldable pub insert_key : ProtectedKey → List ProtectedKey → Result (List ProtectedKey)
insert_key k keys = elim (find_key k.ref keys) [
  | some _ ↦ err other
  | none ↦
      if is_active k.status && has_other_active k.ref keys then err other else ok (keys ++ k ∷ [])
]

abbrev pub with_status : Status → ProtectedKey → ProtectedKey
with_status s k = record {
  ref = k.ref;
  status = s;
  algorithm = k.algorithm;
  policy_id = k.policy_id;
  protector_profile = k.protector_profile;
  format = k.format;
  payload = k.payload;
}

-- UPDATE key_versions SET status = ? WHERE …, on the rows that the condition holds of
unfoldable pub set_status : KeyRef → Status → Status → List ProtectedKey → List ProtectedKey
set_status r old new [] = []
set_status r old new (k ∷ ks) =
    (if same_ref k.ref r && same_status k.status old then with_status new k else k)
    ∷ set_status r old new ks

-- RowsAffected of that statement
unfoldable pub count_affected : KeyRef → Status → List ProtectedKey → ℕ
count_affected r old [] = 0
count_affected r old (k ∷ ks) =
    let rest = count_affected r old ks in
    if same_ref k.ref r && same_status k.status old then rest + 1 else rest

-- updateKeyStatus
unfoldable pub update_key_status :
    KeyRef → Status → Status → List ProtectedKey → Result (List ProtectedKey)
update_key_status r old new keys = do
  let count = count_affected r old keys
  guard (not (not (count == 0) && (is_active new && has_other_active r keys))) other
  guard (count == 1) rotation_invalid_transition
  ok (set_status r old new keys)
