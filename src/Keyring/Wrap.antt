-- ===== src/Keyring/Wrap.antt =====
-- internal/keyring/wrap.go: encryption with the active version of a ring and decryption with the
-- version that a blob names. `done` is the result of ctx.Err(), `none` where the context is live, and
-- `entropy` the outcome of reading a nonce of 12 bytes from the random source.
pub mod RoundTrip
pub mod Refusals
use openbao_attested_unseal.Prelude.{ℕ, Bool, not, Option, none, some, List, [], ◌∷◌, ◌==◌, length}
use openbao_attested_unseal.Prelude.Result.{
  Error, Result, ok, err, invalid_metadata, other, ◌>>=◌, ◌>>◌, guard, wrap_err,
}
use openbao_attested_unseal.Prelude.Text.{Text, is_empty}
use openbao_attested_unseal.Keyring.Key.{
  KeyRef, KeyVersion, nonce_size, blob_mechanism_aes256gcm, format_ref, parse_key_ref,
}
use openbao_attested_unseal.Keyring.Ring.{Ring, active_version, key_for_decrypt}
use openbao_attested_unseal.Keyring.Metadata.{Metadata, new_metadata, validate_metadata}
use openbao_attested_unseal.Keyring.Primitives.{Primitives}

-- wrapping.KeyInfo and wrapping.BlobInfo
pub record KeyInfo : Type 0 where
  pub mechanism : ℕ
  pub key_id : Text

pub record BlobInfo : Type 0 where
  pub ciphertext : Text
  pub iv : Text
  pub key_info : Option KeyInfo

abbrev pub live : Option Error → Result (Unit {0})
live none = ok tt
live (some e) = err e

validate_key_info : Option KeyInfo → Result KeyRef
validate_key_info none = err invalid_metadata
validate_key_info (some info) = do
  guard (info.mechanism == blob_mechanism_aes256gcm) invalid_metadata
  parse_key_ref info.key_id

-- validateBlob
unfoldable pub validate_blob : Option BlobInfo → Result KeyRef
unfolding validate_key_info
validate_blob none = err invalid_metadata
validate_blob (some blob) = do
  guard (not (is_empty blob.ciphertext)) invalid_metadata
  guard (length blob.iv == nonce_size) invalid_metadata
  validate_key_info blob.key_info

module _ (p : Primitives) where
  -- Metadata.CanonicalAAD
  unfoldable pub canonical_aad : Metadata → Text → Result Text
  canonical_aad m caller = do validate_metadata m; wrap_err (p.marshal m caller) other

  -- newAEAD
  unfoldable pub new_aead : Text → Result p.Aead
  new_aead material = do
    block ← wrap_err (p.new_cipher material) other
    wrap_err (p.new_gcm block nonce_size) other

  -- Ring.Encrypt
  unfoldable pub encrypt : Option Error → Result Text → Ring → Text → Text → Result BlobInfo
  encrypt done entropy r plaintext caller = do
    live done
    version ← active_version r
    aad ← canonical_aad (new_metadata version) caller
    aead ← new_aead version.material
    nonce ← wrap_err entropy other
    ok (record {
      ciphertext = p.seal aead nonce plaintext aad;
      iv = nonce;
      key_info =
          some (record { mechanism = blob_mechanism_aes256gcm; key_id = format_ref version.ref });
    })

  -- Ring.Decrypt
  unfoldable pub decrypt : Option Error → Ring → Option BlobInfo → Text → Result Text
  decrypt done r none caller = live done >> err invalid_metadata
  decrypt done r (some blob) caller = do
    live done
    ref ← validate_blob (some blob)
    version ← key_for_decrypt r ref
    aad ← canonical_aad (new_metadata version) caller
    aead ← new_aead version.material
    wrap_err (p.open_sealed aead blob.iv blob.ciphertext aad) other
