-- ===== src/Broker/Seed/Development.antt =====
-- internal/broker/sqlite.go: ConfigureDevelopment.
use openbao_attested_unseal.Prelude.{◌&&◌, ◌==◌, none, List, [], ◌∷◌}
use openbao_attested_unseal.Prelude.Result.{Result, ok, err, other, ◌>>=◌, ◌>>◌, guard}
use openbao_attested_unseal.Prelude.Text.{Text, codes, text_eq}
use openbao_attested_unseal.Keyring.Key.{is_active}
use openbao_attested_unseal.Keyprotection.{ProtectedKey, validate_protected_key}
use openbao_attested_unseal.Broker.Subjects.{Subject, insert_subject}
use openbao_attested_unseal.Broker.Config.{
  Config, config_profile, config_policy, development_subjects,
}
use openbao_attested_unseal.Broker.Seed.{
  SeedTables, ids_of_clusters, insert_cluster, insert_keyring, insert_version, insert_policy,
}

-- validateDevelopmentProtectedKey
unfoldable pub validate_development_key : Config → ProtectedKey → Result (Unit {0})
validate_development_key c k = do
  validate_protected_key k
  guard
      (text_eq k.ref.cluster_id c.cluster_id
        && (text_eq k.ref.key_id c.key_id
            && (k.ref.version == 1
                && (is_active k.status
                    && (text_eq k.policy_id (config_policy c)
                        && text_eq k.protector_profile (config_profile c))))))
      other

-- A statement INSERT OR IGNORE whose row a unique key refuses changes nothing. Its foreign key and its
-- check hold where it stands, since the rows that they ask for are inserted before it.
abbrev or_ignore {ℓ} : {A : Type ℓ} → Result A → A → A
or_ignore (ok a) before = a
or_ignore (err _) before = before

-- The loop over the development subjects.
unfoldable pub insert_subjects : List Text → Text → List Text → List Subject → Result (List Subject)
insert_subjects clusters cluster_id [] rows = ok rows
insert_subjects clusters cluster_id (subject ∷ subjects) rows = do
  rows' ← insert_subject clusters cluster_id subject rows
  insert_subjects clusters cluster_id subjects rows'

-- ConfigureDevelopment
unfoldable pub configure_development : Config → ProtectedKey → SeedTables → Result SeedTables
configure_development c k t = do
  validate_development_key c k
  let clusters =
      or_ignore
        (insert_cluster (record { cluster_id = c.cluster_id; recovery_package_id = none })
          t.clusters)
        t.clusters
  let t1 = record t { clusters = clusters }
  let keyrings =
      or_ignore
        (insert_keyring
          (record { cluster_id = c.cluster_id; key_id = c.key_id; profile = config_profile c }) t1)
        t1.keyrings
  let t2 = record t1 { keyrings = keyrings }
  let t3 = record t2 { keys = or_ignore (insert_version k t2) t2.keys }
  let policies =
      or_ignore
        (insert_policy
          (record {
            cluster_id = c.cluster_id;
            policy_id = config_policy c;
            body = codes "default-deny-with-development-subject";
          })
          t3)
        t3.policies
  subjects ←
      insert_subjects (ids_of_clusters clusters) c.cluster_id (development_subjects c) t.subjects
  ok (record t3 { policies = policies; subjects = subjects })
