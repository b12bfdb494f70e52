-- ===== src/Broker/LoadExamples.antt =====
-- A keyring that is bootstrapped, rotated and loaded.
use openbao_attested_unseal.Prelude.{◌≡◌, refl, none, [], ◌∷◌}
use openbao_attested_unseal.Prelude.Result.{ok}
use openbao_attested_unseal.Prelude.Text.{codes, text_eq}
use openbao_attested_unseal.Prelude.Space.{is_blank}
use openbao_attested_unseal.Keyring.Key.{
  KeyVersion, active, decrypt_only, validate_ref, valid_identifier, validate_version,
}
use mathlib.Core.List.{Memᴰ}
use openbao_attested_unseal.Keyring.Ring.{Ring, active_version, key_for_decrypt}
use openbao_attested_unseal.Keyring.Samples.{sample_ref, bytes_of}
use openbao_attested_unseal.Prelude.Int.{pos}
use openbao_attested_unseal.Keyprotection.{
  validate_protected_key, with_material, load_keyring, development_protector, unprotect,
}
use openbao_attested_unseal.Broker.Keys.{protected_keys, find_key, has_other_active, insert_key}
use openbao_attested_unseal.Broker.Subjects.{has_text}
use openbao_attested_unseal.Broker.Rotation.{activate_operation}
use openbao_attested_unseal.Broker.Rotation.Reach
use openbao_attested_unseal.Broker.Rotation.Loads.{load_keyring-bootstrap_keyring}
use openbao_attested_unseal.Broker.Keys.Opened.{Opens}
use openbao_attested_unseal.Broker.Seed.{
  SeedTables, BootstrapKeyringRequest, requested_cluster, requested_keyring, requested_policy,
  requested_package, bootstrap_keyring, insert_cluster, insert_keyring, insert_version,
  insert_policy, insert_package, insert_requested_package, ids_of_clusters, has_keyring, has_policy,
  has_package,
}
use openbao_attested_unseal.Broker.Samples.{sample_protected}
use openbao_attested_unseal.Broker.Scenarios.{operation, fresh, rotated, activates, reached}

-- The tables of a new database, the bootstrap of the sample key, and the ring that is loaded after its
-- rotation.
abbrev no_rows : SeedTables
no_rows = record {
  clusters = [];
  keyrings = [];
  keys = [];
  policies = [];
  packages = [];
  subjects = [];
}

abbrev bootstrap_request : BootstrapKeyringRequest
bootstrap_request = record {
  key = sample_protected 1 active;
  recovery_package_id = codes "pkg";
  recovery_threshold = pos 2;
  recovery_shares = pos 3;
  recovery_checksum = codes "sum";
  recovery_metadata_json = codes "{}";
}

abbrev seeded : SeedTables
seeded = record {
  clusters = requested_cluster bootstrap_request ∷ [];
  keyrings = requested_keyring bootstrap_request ∷ [];
  keys = sample_protected 1 active ∷ [];
  policies = requested_policy bootstrap_request ∷ [];
  packages = requested_package bootstrap_request ∷ [];
  subjects = [];
}

seeds : bootstrap_keyring bootstrap_request no_rows ≡ ok seeded
unfolding bootstrap_keyring insert_cluster insert_keyring insert_version insert_policy
    insert_package insert_requested_package ids_of_clusters has_keyring has_policy has_package
    has_text insert_key find_key has_other_active validate_protected_key validate_ref
    valid_identifier is_blank text_eq
seeds = refl

Opens-old : Opens (development_protector none) (λ k. k.payload) (sample_protected 1 decrypt_only)
unfolding unprotect validate_protected_key validate_version validate_ref valid_identifier text_eq
    is_blank
Opens-old = record { same_profile = refl; opened = refl; sized = refl }

Opens-new : Opens (development_protector none) (λ k. k.payload) (sample_protected 2 active)
unfolding unprotect validate_protected_key validate_version validate_ref valid_identifier text_eq
    is_blank
Opens-new = record { same_profile = refl; opened = refl; sized = refl }

load_keyring-bootstrap_keyring_example :
    (seeded.keys ≡ fresh.keys)
    × ((ring : Ring) × (load_keyring
            (development_protector none)
            (protected_keys (codes "lab") rotated.keys)
          ≡ ok ring)
        × ((v : KeyVersion) × (active_version ring ≡ ok v))
        × (key_for_decrypt ring (sample_ref 1)
            ≡ ok (with_material (sample_protected 1 decrypt_only) (bytes_of 32))))
load_keyring-bootstrap_keyring_example =
    load_keyring-bootstrap_keyring (development_protector none) (λ k. k.payload) bootstrap_request
      no_rows seeded rotated (sample_protected 1 decrypt_only) refl seeds
      (Reach.after reached
        (Reach.activate (codes "op") 30 0 (activate_operation 30 operation) activates))
      (Opens-old, (Opens-new, tt)) (Memᴰ.head refl) refl
