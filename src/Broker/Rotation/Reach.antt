-- ===== src/Broker/Rotation/Reach.antt =====
-- The rotation operations over every sequence of them.
use openbao_attested_unseal.Prelude.{
  ℕ, ◌≡◌, refl, sym, ap, ◌∙◌, some, [], ◌∷◌, arith, inl, inr, Bool-cases,
}
use openbao_attested_unseal.Prelude.Result.{ok}
use openbao_attested_unseal.Prelude.Text.{Text}
use openbao_attested_unseal.Keyring.Key.{KeyRef}
use openbao_attested_unseal.Keyring.Ring.{same_ref}
use openbao_attested_unseal.Keyprotection.{ProtectedKey}
use openbao_attested_unseal.Broker.Keys.{find_key}
use openbao_attested_unseal.Broker.Rotation.{
  RotationOperation, RotationTables, RotationStartRequest, RotationVerification, find_operation,
  start_rotation, activate_rotation, record_rotation_verification,
}
use openbao_attested_unseal.Broker.Rotation.Invariant.{IsSound}
use openbao_attested_unseal.Broker.Rotation.Start.{start_rotation-IsSound}
use openbao_attested_unseal.Broker.Rotation.Lifecycle.{activate_rotation-IsSound}

find_key_one : (r : KeyRef) (k j : ProtectedKey) → find_key r (k ∷ []) ≡ some j → k ≡ j
unfolding find_key
find_key_one r k j h = elim (Bool-cases (same_ref k.ref r)) [
  | inl same ↦ ground arith
  | inr differs ↦ absurd (ground arith)
]

record_rotation_verification-IsSound :
    (id name detail : Text) (at clock : ℕ) (t t' : RotationTables) (v : RotationVerification)
    → IsSound t
    → record_rotation_verification id name detail at clock t ≡ ok (v, t')
    → IsSound t'
unfolding record_rotation_verification
record_rotation_verification-IsSound id name detail at clock t t' v s h =
    let same : (t.keys ≡ t'.keys) × (t.operations ≡ t'.operations) = (ground arith, ground arith) in
    record {
      distinct = rw same.0 at s.distinct;
      one_active = rw same.0 at s.one_active;
      one_started = rw same.1 at s.one_started;
      paired = rw (same.0, same.1) at s.paired;
    }

-- The tables that a new keyring has: its only version, active, and no operation.
abbrev pub fresh_tables : ProtectedKey → RotationTables
fresh_tables k = record { keys = k ∷ []; operations = []; verifications = [] }

-- The operations that change the tables.
pub data Step : RotationTables → RotationTables → Type 0 where
  start :
      {t t' : RotationTables} (r : RotationStartRequest) (clock : ℕ) (o : RotationOperation)
      → start_rotation r clock t ≡ ok (o, t')
      → Step t t'
  activate :
      {t t' : RotationTables} (id : Text) (at clock : ℕ) (o : RotationOperation)
      → activate_rotation id at clock t ≡ ok (o, t')
      → Step t t'
  verify :
      {t t' : RotationTables} (id name detail : Text) (at clock : ℕ) (v : RotationVerification)
      → record_rotation_verification id name detail at clock t ≡ ok (v, t')
      → Step t t'

pub data Reachable (k : ProtectedKey) : RotationTables → Type 0 where
  fresh : Reachable k (fresh_tables k)
  after : {t t' : RotationTables} → Reachable k t → Step t t' → Reachable k t'

IsSound-fresh : (k : ProtectedKey) → IsSound (fresh_tables k)
unfolding find_key find_operation
IsSound-fresh k = record {
  distinct = (refl, tt);
  one_active = λ i j fi fj c d ai aj.
      ap (λ (l : ProtectedKey). l.ref.version)
        (sym (find_key_one i.ref k i fi) ∙ find_key_one j.ref k j fj);
  one_started = λ o p fo fp. absurd (ground arith);
  paired = λ o fo. absurd (ground arith);
}

IsSound-Step : (t t' : RotationTables) → IsSound t → Step t t' → IsSound t'
IsSound-Step t t' s (start r clock o h) = start_rotation-IsSound r clock t t' o s h
IsSound-Step t t' s (activate id at clock o h) = activate_rotation-IsSound id at clock t t' o s h
IsSound-Step t t' s (verify id name detail at clock v h) =
    record_rotation_verification-IsSound id name detail at clock t t' v s h

-- Every sequence of rotation operations from a fresh keyring leaves sound tables: the versions are
-- distinct, no key has two active versions or two started operations, and the versions of a started
-- operation are active and pending.
pub Reachable-IsSound : (k : ProtectedKey) (t : RotationTables) → Reachable k t → IsSound t
Reachable-IsSound k t fresh = IsSound-fresh k
Reachable-IsSound k t (after {t = u} run one) = IsSound-Step u t (Reachable-IsSound k u run) one
