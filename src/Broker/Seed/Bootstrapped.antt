-- ===== src/Broker/Seed/Bootstrapped.antt =====
-- internal/broker/sqlite.go: what BootstrapKeyring checks and adds.
use openbao_attested_unseal.Prelude.{
  ◌≡◌, ◌∙◌, true, not, ◌&&◌, ◌==◌, List, [], ◌∷◌, ◌++◌, inl, inr, Bool-cases, arith,
}
use openbao_attested_unseal.Prelude.Result.{ok, other, >>=-ok, >>-ok, guard, guard-ok}
use openbao_attested_unseal.Prelude.Text.{is_empty}
use openbao_attested_unseal.Keyring.Key.{active, is_active}
use openbao_attested_unseal.Keyprotection.{ProtectedKey, validate_protected_key}
use openbao_attested_unseal.Broker.Rotation.Start.{insert_key-parts}
use openbao_attested_unseal.Broker.Seed.{
  BootstrapKeyringRequest, SeedTables, insert_cluster, insert_keyring, insert_version,
  insert_policy, insert_package, requested_package, has_keyring, requested_cluster,
  requested_keyring, requested_policy, insert_requested_package, bootstrap_keyring,
}

insert_requested_package-keys :
    (r : BootstrapKeyringRequest) (s s' : SeedTables)
    → insert_requested_package r s ≡ ok s'
    → s'.keys ≡ s.keys
unfolding insert_requested_package
insert_requested_package-keys r s s' h = elim (Bool-cases (is_empty r.recovery_package_id)) [
  | inl e ↦ cc (rw (e, insert_requested_package) at h)
  | inr e ↦
      let (packages, _, done) =
        >>=-ok (insert_package (requested_package r) s) _ (rw (e, insert_requested_package) at h) in
      cc
]

insert_version-added :
    (k : ProtectedKey) (s : SeedTables) (keys : List ProtectedKey)
    → insert_version k s ≡ ok keys
    → keys ≡ s.keys ++ k ∷ []
unfolding insert_version
insert_version-added k s keys h =
    let (_, h1) = >>-ok (guard (has_keyring k.ref.cluster_id k.ref.key_id s.keyrings) other) _ h in
    let (_, h2) = >>-ok (guard (not (k.ref.version == 0)) other) _ h1 in
    (insert_key-parts k s.keys keys h2).1

-- What a bootstrap that succeeds has checked, and the row that it adds.
pub bootstrap_keyring-parts :
    (r : BootstrapKeyringRequest) (s s' : SeedTables)
    → bootstrap_keyring r s ≡ ok s'
    → (validate_protected_key r.key ≡ ok tt)
      × (r.key.status ≡ active)
      × (r.key.ref.version ≡ 1)
      × (s'.keys ≡ s.keys ++ r.key ∷ [])
unfolding bootstrap_keyring
bootstrap_keyring-parts r s s' h =
    let first_version = is_active r.key.status && r.key.ref.version == 1 in
    let (valid, h1) = >>-ok (validate_protected_key r.key) _ h in
    let (first, h2) = >>-ok (guard first_version other) _ h1 in
    let (clusters, _, h3) = >>=-ok (insert_cluster (requested_cluster r) s.clusters) _ h2 in
    let s1 = record s { clusters = clusters } in
    let (keyrings, _, h4) = >>=-ok (insert_keyring (requested_keyring r) s1) _ h3 in
    let s2 = record s { clusters = clusters; keyrings = keyrings } in
    let (keys, held, h5) = >>=-ok (insert_version r.key s2) _ h4 in
    let s3 = record s { clusters = clusters; keyrings = keyrings; keys = keys } in
    let (policies, _, h6) = >>=-ok (insert_policy (requested_policy r) s3) _ h5 in
    let s4 = record s {
      clusters = clusters;
      keyrings = keyrings;
      keys = keys;
      policies = policies;
    } in
    let passed : first_version ≡ true = guard-ok first_version other first in
    (
      valid,
      (is_first r.key passed).0,
      (is_first r.key passed).1,
      insert_requested_package-keys r s4 s' h6 ∙ insert_version-added r.key s2 keys held,
    )
  where
    is_first :
        (k : ProtectedKey)
        → (is_active k.status && k.ref.version == 1) ≡ true
        → (k.status ≡ active) × (k.ref.version ≡ 1)
    is_first k passed = (ground arith, ground arith)
