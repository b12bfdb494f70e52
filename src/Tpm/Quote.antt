-- ===== src/Tpm/Quote.antt =====
-- internal/tpm/quote.go: the shape of TPM evidence, and the verification of its quote. The collection
-- of a quote is not modelled: it is a call of the TPM.
pub mod Signed
pub mod Sound
use openbao_attested_unseal.Prelude.{
  ℕ, Bool, true, false, not, length, is_nil, ◌&&◌, ◌||◌, Option, none, some, List, [], ◌∷◌, ◌++◌,
  ◌==◌, if◌then◌else◌,
}
use openbao_attested_unseal.Prelude.Result.{
  Result, ok, err, invalid_evidence, quote_verification, ◌>>=◌, ◌>>◌, guard, wrap_err, or_err,
}
use openbao_attested_unseal.Prelude.Int.{ℤ}
use openbao_attested_unseal.Prelude.Text.{Text, codes, text_eq, is_empty}
use openbao_attested_unseal.Prelude.Trim.{trim_space}
use openbao_attested_unseal.Prelude.Hex.{encode_hex}
use openbao_attested_unseal.Tpm.Library.{
  TpmLibrary, sha256, Algorithm, alg_rsassa, alg_rsapss, alg_ecdsa, AttestationData, QuoteInfo,
  SignatureRsa, SignatureEcc, Signature, PublicKey, rsa_key, ecdsa_key, other_key,
}
use openbao_attested_unseal.Tpm.Pcr.{
  PcrSelection, PcrValues, pcr_value, decode_pcr_values, same_selection, normalize,
  compute_pcr_digest, digest_string, parse_digest_string, selection_from_legacy,
}

pub record TpmEvidence : Type 0 where
  pub schema_version : ℕ
  pub challenge_id : Text
  pub nonce_hash : Text
  pub ak_public : Text
  pub quote : Text
  pub signature : Text
  pub pcr_selection : PcrSelection
  pub pcr_values : List (Text × Text)
  pub ek_public_hash : Text
  pub platform_hint : Text
  pub collected_by : Text
  pub collected_at_utc : Text

pub record QuoteClaims : Type 0 where
  pub ak_public_hash : Text
  pub pcr_selection : PcrSelection
  pub pcr_digest : Text
  pub nonce_hash : Text

abbrev pub evidence_schema_version : ℕ
evidence_schema_version = 1

-- The last loop of Evidence.Validate: every selected PCR has a value.
unfoldable pub has_values : List ℤ → PcrValues → Bool
has_values [] values = true
has_values (p ∷ ps) values = elim (pcr_value p values) [
  | none ↦ false
  | some v ↦ has_values ps values
]

module _ (x : TpmLibrary) where
  -- NonceDigest and PublicDigest
  unfoldable pub nonce_digest : Text → Text
  nonce_digest nonce = codes "sha256:" ++ encode_hex (x.sum sha256 nonce)

  unfoldable pub public_digest : Text → Text
  public_digest public = codes "sha256:" ++ encode_hex (x.sum sha256 public)

  -- Evidence.Validate
  unfoldable pub validate_evidence : TpmEvidence → Result (Unit {0})
  validate_evidence e = do
    guard (e.schema_version == evidence_schema_version) invalid_evidence
    guard (not (is_empty (trim_space e.challenge_id))) invalid_evidence
    parsed ← wrap_err (parse_digest_string x e.nonce_hash) invalid_evidence
    guard (length (parsed.1) == 32) invalid_evidence
    guard (not (is_empty e.ak_public)) invalid_evidence
    guard (not (is_empty e.quote)) invalid_evidence
    guard (not (is_empty e.signature)) invalid_evidence
    _ ← wrap_err (normalize x e.pcr_selection) invalid_evidence
    values ← wrap_err (decode_pcr_values e.pcr_values) invalid_evidence
    guard (has_values e.pcr_selection.pcrs values) invalid_evidence

  -- verifyNonceHash
  unfoldable pub verify_nonce_hash : TpmEvidence → Text → Result (Unit {0})
  verify_nonce_hash e nonce = do
    guard (not (is_empty nonce)) quote_verification
    guard (text_eq e.nonce_hash (nonce_digest nonce)) quote_verification

  -- hashMessage
  unfoldable pub hash_message : Algorithm → Text → Result (ℕ × Text)
  hash_message alg message = do hash ← x.hash_of alg; ok (hash, x.hash_sum hash message)

  -- verifyRSASignature
  unfoldable pub verify_rsa_signature :
      PublicKey → Option SignatureRsa → Text → Bool → Result (Unit {0})
  verify_rsa_signature key none message pss = err quote_verification
  verify_rsa_signature key (some s) message pss = do
    hashed ← wrap_err (hash_message s.hash_alg message) quote_verification
    guard
        (elim key [
          | rsa_key k ↦
              if pss
              then x.verify_pss k (hashed.0) (hashed.1) s.signature
              else x.verify_pkcs1v15 k (hashed.0) (hashed.1) s.signature
          | _ ↦ false
        ])
        quote_verification

  -- verifyECDSASignature
  unfoldable pub verify_ecdsa_signature : PublicKey → Option SignatureEcc → Text → Result (Unit {0})
  verify_ecdsa_signature key none message = err quote_verification
  verify_ecdsa_signature key (some s) message = do
    hashed ← wrap_err (hash_message s.hash_alg message) quote_verification
    guard (elim key [ ecdsa_key k ↦ x.verify_ecdsa k (hashed.1) s.r s.s | _ ↦ false ])
        quote_verification

  -- verifySignature
  unfoldable pub verify_signature : PublicKey → Signature → Text → Result (Unit {0})
  verify_signature key s message = elim (s.alg) [
    | alg_rsassa ↦ verify_rsa_signature key s.rsa message false
    | alg_rsapss ↦ verify_rsa_signature key s.rsa message true
    | alg_ecdsa ↦ verify_ecdsa_signature key s.ecc message
    | _ ↦ err quote_verification
  ]

  -- verifyAKSignature
  unfoldable pub verify_ak_signature : TpmEvidence → Result Text
  verify_ak_signature e = do
    key ← wrap_err (x.decode_public e.ak_public) quote_verification
    signature ← wrap_err (x.decode_signature e.signature) quote_verification
    verify_signature key signature e.quote
    ok (public_digest e.ak_public)

  -- verifyAttestation: the quote of the attestation
  unfoldable pub verify_attestation : TpmEvidence → Text → Result QuoteInfo
  verify_attestation e nonce = do
    a ← wrap_err (x.decode_attestation e.quote) quote_verification
    guard (a.is_quote) quote_verification
    q ← or_err a.quote_info quote_verification
    guard (text_eq a.extra_data nonce) quote_verification
    ok q

  -- verifyAttestedPCRs
  unfoldable pub verify_attested_pcrs : TpmEvidence → QuoteInfo → Result (PcrSelection × Text)
  verify_attested_pcrs e q = do
    quoted ← wrap_err (normalize x (selection_from_legacy x q.selection)) quote_verification
    selection ← normalize x e.pcr_selection
    guard (same_selection quoted selection) quote_verification
    values ← wrap_err (decode_pcr_values e.pcr_values) quote_verification
    digest ← wrap_err (compute_pcr_digest x selection values) quote_verification
    guard (text_eq q.pcr_digest digest) quote_verification
    ok (selection, digest)

  -- VerifyQuote
  unfoldable pub verify_quote : TpmEvidence → Text → Result QuoteClaims
  verify_quote e nonce = do
    validate_evidence e
    verify_nonce_hash e nonce
    ak_public_hash ← verify_ak_signature e
    attested ← verify_attestation e nonce
    checked ← verify_attested_pcrs e attested
    ok (record {
      ak_public_hash = ak_public_hash;
      pcr_selection = checked.0;
      pcr_digest = digest_string x (checked.0).hash (checked.1);
      nonce_hash = e.nonce_hash;
    })
