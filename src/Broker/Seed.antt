-- ===== src/Broker/Seed.antt =====
-- internal/broker/sqlite.go: BootstrapKeyring and InsertRecoveryPackage, over the tables that they write, with their primary keys, foreign keys and indexes. The column created_at of
-- these tables is never read and is left out. A transaction that fails leaves the tables as they were.
pub mod Bootstrapped
pub mod Development
use openbao_attested_unseal.Prelude.{
  Bool, false, not, ◌&&◌, ◌||◌, ◌==◌, Option, none, List, [], ◌∷◌, if◌then◌else◌,
}
use openbao_attested_unseal.Prelude.Result.{Result, ok, err, other, ◌>>=◌, ◌>>◌, guard}
use openbao_attested_unseal.Prelude.Int.{ℤ}
use openbao_attested_unseal.Prelude.Text.{Text, codes, text_eq, is_empty}
use openbao_attested_unseal.Keyring.Key.{is_active}
use openbao_attested_unseal.Keyprotection.{ProtectedKey, validate_protected_key}
use openbao_attested_unseal.Broker.Subjects.{Subject, has_text, insert_subject}
use openbao_attested_unseal.Broker.Keys.{insert_key}
use openbao_attested_unseal.Broker.NodeRows.{nullable_string}
use openbao_attested_unseal.Broker.Config.{
  Config, config_profile, config_policy, development_subjects,
}

pub record ClusterRow : Type 0 where
  pub cluster_id : Text
  pub recovery_package_id : Option Text

pub record KeyringRow : Type 0 where
  pub cluster_id : Text
  pub key_id : Text
  pub profile : Text

pub record PolicyRow : Type 0 where
  pub cluster_id : Text
  pub policy_id : Text
  pub body : Text

-- RecoveryPackageRecord
pub record PackageRow : Type 0 where
  pub package_id : Text
  pub cluster_id : Text
  pub key_id : Text
  pub threshold : ℤ
  pub shares : ℤ
  pub checksum : Text
  pub body : Text

pub record SeedTables : Type 0 where
  pub clusters : List ClusterRow
  pub keyrings : List KeyringRow
  pub keys : List ProtectedKey
  pub policies : List PolicyRow
  pub packages : List PackageRow
  pub subjects : List Subject

pub record BootstrapKeyringRequest : Type 0 where
  pub key : ProtectedKey
  pub recovery_package_id : Text
  pub recovery_threshold : ℤ
  pub recovery_shares : ℤ
  pub recovery_checksum : Text
  pub recovery_metadata_json : Text

unfoldable pub ids_of_clusters : List ClusterRow → List Text
ids_of_clusters [] = []
ids_of_clusters (c ∷ cs) = c.cluster_id ∷ ids_of_clusters cs

-- The primary keys of the tables.
unfoldable pub has_keyring : Text → Text → List KeyringRow → Bool
has_keyring cluster_id key_id [] = false
has_keyring cluster_id key_id (k ∷ ks) =
    text_eq k.cluster_id cluster_id && text_eq k.key_id key_id || has_keyring cluster_id key_id ks

unfoldable pub has_policy : Text → Text → List PolicyRow → Bool
has_policy cluster_id policy_id [] = false
has_policy cluster_id policy_id (p ∷ ps) =
    text_eq p.cluster_id cluster_id && text_eq p.policy_id policy_id
    || has_policy cluster_id policy_id ps

unfoldable pub has_package : Text → List PackageRow → Bool
has_package package_id [] = false
has_package package_id (p ∷ ps) = text_eq p.package_id package_id || has_package package_id ps

-- The INSERT statements, on rows whose primary key is free.
unfoldable pub insert_cluster : ClusterRow → List ClusterRow → Result (List ClusterRow)
insert_cluster c rows = do
  guard (not (has_text c.cluster_id (ids_of_clusters rows))) other
  ok (c ∷ rows)

unfoldable pub insert_keyring : KeyringRow → SeedTables → Result (List KeyringRow)
insert_keyring k t = do
  guard (not (has_keyring k.cluster_id k.key_id t.keyrings)) other
  guard (has_text k.cluster_id (ids_of_clusters t.clusters)) other
  ok (k ∷ t.keyrings)

-- The foreign key of key_versions, and the statement itself.
unfoldable pub insert_version : ProtectedKey → SeedTables → Result (List ProtectedKey)
insert_version k t = do
  guard (has_keyring k.ref.cluster_id k.ref.key_id t.keyrings) other
  guard (not (k.ref.version == 0)) other
  insert_key k t.keys

unfoldable pub insert_policy : PolicyRow → SeedTables → Result (List PolicyRow)
insert_policy p t = do
  guard (not (has_policy p.cluster_id p.policy_id t.policies)) other
  guard (has_text p.cluster_id (ids_of_clusters t.clusters)) other
  ok (p ∷ t.policies)

unfoldable pub insert_package : PackageRow → SeedTables → Result (List PackageRow)
insert_package p t = do
  guard (not (has_package p.package_id t.packages)) other
  guard (has_keyring p.cluster_id p.key_id t.keyrings) other
  ok (p ∷ t.packages)

-- The row of the recovery package of a bootstrap request.
abbrev pub requested_package : BootstrapKeyringRequest → PackageRow
requested_package r = record {
  package_id = r.recovery_package_id;
  cluster_id = r.key.ref.cluster_id;
  key_id = r.key.ref.key_id;
  threshold = r.recovery_threshold;
  shares = r.recovery_shares;
  checksum = r.recovery_checksum;
  body = r.recovery_metadata_json;
}

-- The other rows of a bootstrap request.
abbrev pub requested_cluster : BootstrapKeyringRequest → ClusterRow
requested_cluster r = record {
  cluster_id = r.key.ref.cluster_id;
  recovery_package_id = nullable_string r.recovery_package_id;
}

abbrev pub requested_keyring : BootstrapKeyringRequest → KeyringRow
requested_keyring r = record {
  cluster_id = r.key.ref.cluster_id;
  key_id = r.key.ref.key_id;
  profile = r.key.protector_profile;
}

abbrev pub requested_policy : BootstrapKeyringRequest → PolicyRow
requested_policy r = record {
  cluster_id = r.key.ref.cluster_id;
  policy_id = r.key.policy_id;
  body = codes "default-deny-with-enrolled-subjects";
}

-- The last statement of BootstrapKeyring.
unfoldable pub insert_requested_package : BootstrapKeyringRequest → SeedTables → Result SeedTables
insert_requested_package r t = if is_empty r.recovery_package_id then ok t else (do
  packages ← insert_package (requested_package r) t
  ok (record t { packages = packages }))

-- BootstrapKeyring
unfoldable pub bootstrap_keyring : BootstrapKeyringRequest → SeedTables → Result SeedTables
bootstrap_keyring r t = do
  validate_protected_key r.key
  guard (is_active r.key.status && r.key.ref.version == 1) other
  clusters ← insert_cluster (requested_cluster r) t.clusters
  keyrings ← insert_keyring (requested_keyring r) (record t { clusters = clusters })
  keys ← insert_version r.key (record t { clusters = clusters; keyrings = keyrings })
  policies ←
      insert_policy (requested_policy r)
        (record t { clusters = clusters; keyrings = keyrings; keys = keys })
  insert_requested_package r
      (record t { clusters = clusters; keyrings = keyrings; keys = keys; policies = policies })

-- InsertRecoveryPackage: INSERT OR IGNORE, which a missing keyring still refuses
unfoldable pub insert_recovery_package : PackageRow → SeedTables → Result SeedTables
insert_recovery_package p t =
    if has_package p.package_id t.packages
    then ok t
    else (do packages ← insert_package p t; ok (record t { packages = packages }))
