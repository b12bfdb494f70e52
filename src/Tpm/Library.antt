-- ===== src/Tpm/Library.antt =====
-- What internal/tpm takes from packages go-tpm, crypto/rsa, crypto/ecdsa and crypto/sha…, as a
-- parameter of the model, with the documented behaviour that the proofs rely on.
use openbao_attested_unseal.Prelude.{ℕ, ◌≡◌, Bool, Option, List, length, All}
use openbao_attested_unseal.Prelude.Result.{Result}
use openbao_attested_unseal.Prelude.Int.{ℤ}
use openbao_attested_unseal.Prelude.Text.{Text}
use openbao_attested_unseal.Prelude.Hex.{IsByte}
use openbao_attested_unseal.Prelude.Case.{LowerUnicode, LowerLaws}

pub data HashAlg : Type 0 where
  sha1 sha256 sha384 sha512 : HashAlg

-- sha1.Size, sha256.Size, sha512.Size384 and sha512.Size
abbrev pub size : HashAlg → ℕ
size sha1 = 20
size sha256 = 32
size sha384 = 48
size sha512 = 64

-- legacytpm2.Algorithm
pub data Algorithm : Type 0 where
  alg_sha1 alg_sha256 alg_sha384 alg_sha512 alg_rsassa alg_rsapss alg_ecdsa : Algorithm
  alg_other : ℕ → Algorithm

-- legacytpm2.PCRSelection
pub record LegacySelection : Type 0 where
  pub alg : Algorithm
  pub pcrs : List ℤ

pub record QuoteInfo : Type 0 where
  pub selection : LegacySelection
  pub pcr_digest : Text

-- legacytpm2.AttestationData; `is_quote` is Type == TagAttestQuote
pub record AttestationData : Type 0 where
  pub is_quote : Bool
  pub extra_data : Text
  pub quote_info : Option QuoteInfo

pub record SignatureRsa : Type 0 where
  pub hash_alg : Algorithm
  pub signature : Text

pub record SignatureEcc : Type 0 where
  pub hash_alg : Algorithm
  pub r : ℤ
  pub s : ℤ

-- legacytpm2.Signature
pub record Signature : Type 0 where
  pub alg : Algorithm
  pub rsa : Option SignatureRsa
  pub ecc : Option SignatureEcc

-- crypto.PublicKey
pub data PublicKey : Type 0 where
  rsa_key ecdsa_key : Text → PublicKey
  other_key : PublicKey

pub record TpmLibrary : Type 0 where
  pub lower : LowerUnicode
  -- the sums of crypto/sha1, crypto/sha256 and crypto/sha512
  pub sum : HashAlg → Text → Text
  -- uint16(alg)
  pub number : Algorithm → ℕ
  -- DecodePublic followed by Key, DecodeSignature and DecodeAttestationData
  pub decode_public : Text → Result PublicKey
  pub decode_signature : Text → Result Signature
  pub decode_attestation : Text → Result AttestationData
  -- Algorithm.Hash and what that crypto.Hash sums
  pub hash_of : Algorithm → Result ℕ
  pub hash_sum : ℕ → Text → Text
  -- rsa.VerifyPSS and rsa.VerifyPKCS1v15 without an error, ecdsa.Verify
  pub verify_pss : Text → ℕ → Text → Text → Bool
  pub verify_pkcs1v15 : Text → ℕ → Text → Text → Bool
  pub verify_ecdsa : Text → Text → ℤ → ℤ → Bool

pub record TpmLaws (x : TpmLibrary) : Type 0 where
  pub lower_laws : LowerLaws x.lower
  pub length-sum : (h : HashAlg) (t : Text) → length (x.sum h t) ≡ size h
  pub sum-IsByte : (h : HashAlg) (t : Text) → All IsByte (x.sum h t)
