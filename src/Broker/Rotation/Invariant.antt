-- ===== src/Broker/Rotation/Invariant.antt =====
-- The invariant of the rotation tables.
use openbao_attested_unseal.Prelude.{◌≡◌, ◌≤◌, ◌<◌, List, some}
use openbao_attested_unseal.Keyring.Key.{active, pending, version_limit}
use openbao_attested_unseal.Keyprotection.{ProtectedKey}
use openbao_attested_unseal.Broker.Keys.{find_key}
use openbao_attested_unseal.Broker.Keys.Table.{AreDistinctKeys, HasOneActive}
use openbao_attested_unseal.Broker.Rotation.{
  RotationOperation, RotationTables, started, find_operation, version_ref,
}

-- The versions of a started operation: the old one is active and the new one pending.
pub record IsPaired (keys : List ProtectedKey) (o : RotationOperation) : Type 0 where
  pub old : ProtectedKey
  pub old_found : find_key (version_ref o o.from_version) keys ≡ some old
  pub old_active : old.status ≡ active
  pub new : ProtectedKey
  pub new_found : find_key (version_ref o o.to_version) keys ≡ some new
  pub new_pending : new.status ≡ pending
  pub from_positive : 0 < o.from_version
  pub from_small : o.from_version ≤ version_limit
  pub to_positive : 0 < o.to_version
  pub to_small : o.to_version ≤ version_limit

-- No two started operations belong to one key.
abbrev pub HasOneStarted : List RotationOperation → Type 0
HasOneStarted ops =
    (o p : RotationOperation)
    → find_operation o.operation_id ops ≡ some o
    → find_operation p.operation_id ops ≡ some p
    → o.cluster_id ≡ p.cluster_id
    → o.key_id ≡ p.key_id
    → o.status ≡ started
    → p.status ≡ started
    → o.operation_id ≡ p.operation_id

pub record IsSound (t : RotationTables) : Type 0 where
  pub distinct : AreDistinctKeys t.keys
  pub one_active : HasOneActive t.keys
  pub one_started : HasOneStarted t.operations
  pub paired :
      (o : RotationOperation)
      → find_operation o.operation_id t.operations ≡ some o
      → o.status ≡ started
      → IsPaired t.keys o
