-- ===== src/Keyring/Primitives.antt =====
-- What internal/keyring takes from packages crypto/aes, crypto/cipher and encoding/json, as a
-- parameter of the model, with the documented behaviour that the proofs rely on.
use openbao_attested_unseal.Prelude.{ℕ, ◌≡◌, ◌≢◌, [], length}
use openbao_attested_unseal.Prelude.Result.{Result, ok}
use openbao_attested_unseal.Prelude.Text.{Text}
use openbao_attested_unseal.Keyring.Key.{key_size, nonce_size}
use openbao_attested_unseal.Keyring.Metadata.{Metadata}

pub record Primitives : Type 1 where
  pub Block : Type 0
  pub Aead : Type 0
  -- aes.NewCipher
  pub new_cipher : Text → Result Block
  -- cipher.NewGCMWithNonceSize
  pub new_gcm : Block → ℕ → Result Aead
  -- AEAD.Seal and AEAD.Open, at a nonce, a plaintext or ciphertext, and additional data
  pub seal : Aead → Text → Text → Text → Text
  pub open_sealed : Aead → Text → Text → Text → Result Text
  -- json.Marshal of the metadata and the caller's data
  pub marshal : Metadata → Text → Result Text

pub record PrimitiveLaws (p : Primitives) : Type 1 where
  -- a key of 32 bytes is an AES-256 key
  pub cipher_of_key :
      (key : Text) → length key ≡ key_size → (b : p.Block) × (p.new_cipher key ≡ ok b)
  -- GCM accepts a nonce size of 12 over AES
  pub gcm_of_cipher : (b : p.Block) → (a : p.Aead) × (p.new_gcm b nonce_size ≡ ok a)
  -- Seal appends a tag, so that its output is not empty
  pub seal_ne_nil : (a : p.Aead) (nonce plain aad : Text) → p.seal a nonce plain aad ≢ []
  -- Open inverts Seal at the same nonce and additional data
  pub open-seal :
      (a : p.Aead) (nonce plain aad : Text)
      → length nonce ≡ nonce_size
      → p.open_sealed a nonce (p.seal a nonce plain aad) aad ≡ ok plain
  -- a struct of texts, numbers and bytes is always encoded
  pub marshal_total : (m : Metadata) (aad : Text) → (t : Text) × (p.marshal m aad ≡ ok t)
