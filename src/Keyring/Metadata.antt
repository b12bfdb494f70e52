-- ===== src/Keyring/Metadata.antt =====
-- internal/keyring/metadata.go: the metadata that every ciphertext authenticates. The JSON decoder
-- of ParseCanonicalAAD is not modelled; the encoder is a parameter (Primitives).
use openbao_attested_unseal.Prelude.{ℕ, ◌≡◌, arith, ◌==◌}
use openbao_attested_unseal.Prelude.Result.{Result, ok, invalid_metadata, ◌>>◌, guard}
use openbao_attested_unseal.Prelude.Text.{Text, text_eq, text_eq_refl}
use openbao_attested_unseal.Keyring.Key.{
  KeyVersion, purpose, blob_format, algorithm_aes256gcm, valid_identifier, validate_ref,
  validate_version,
}

abbrev pub schema_version : ℕ
schema_version = 1

pub record Metadata : Type 0 where
  pub schema : ℕ
  pub purpose_text : Text
  pub cluster_id : Text
  pub key_id : Text
  pub key_version : ℕ
  pub algorithm : Text
  pub policy_id : Text
  pub format : Text

-- NewMetadata
unfoldable pub new_metadata : KeyVersion → Metadata
new_metadata v = record {
  schema = schema_version;
  purpose_text = purpose;
  cluster_id = v.ref.cluster_id;
  key_id = v.ref.key_id;
  key_version = v.ref.version;
  algorithm = v.algorithm;
  policy_id = v.policy_id;
  format = blob_format;
}

-- Metadata.Validate
unfoldable pub validate_metadata : Metadata → Result (Unit {0})
validate_metadata m = do
  guard (m.schema == schema_version) invalid_metadata
  validate_ref (record { cluster_id = m.cluster_id; key_id = m.key_id; version = m.key_version })
  guard (text_eq m.algorithm algorithm_aes256gcm) invalid_metadata
  guard (valid_identifier m.policy_id) invalid_metadata
  guard (text_eq m.purpose_text purpose) invalid_metadata
  guard (text_eq m.format blob_format) invalid_metadata

-- The metadata of a valid version is valid.
pub validate_metadata-new_metadata :
    (v : KeyVersion) → validate_version v ≡ ok tt → validate_metadata (new_metadata v) ≡ ok tt
unfolding validate_metadata new_metadata validate_version
validate_metadata-new_metadata v h = ground (arith, text_eq_refl purpose, text_eq_refl blob_format)
