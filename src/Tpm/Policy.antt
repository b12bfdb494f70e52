-- ===== src/Tpm/Policy.antt =====
-- internal/tpm/policy.go: the policy that a node is enrolled with, and its evaluation on a quote.
pub mod Evaluate
pub mod Enroll
use openbao_attested_unseal.Prelude.{
  ℕ, Bool, true, false, not, length, ◌&&◌, ◌||◌, Option, none, some, List, [], ◌∷◌, ◌==◌,
  if◌then◌else◌,
}
use openbao_attested_unseal.Prelude.Result.{
  Result, ok, err, attestation_policy, unsupported_profile, ◌>>=◌, ◌>>◌, guard, wrap_err,
}
use openbao_attested_unseal.Prelude.Int.{pos}
use openbao_attested_unseal.Prelude.Text.{Text, codes, text_eq, is_empty}
use openbao_attested_unseal.Prelude.Trim.{trim_space}
use openbao_attested_unseal.Tpm.Library.{TpmLibrary, sha256}
use openbao_attested_unseal.Tpm.Pcr.{
  PcrSelection, PcrPolicy, hash_name, contains_pcr, same_selection, normalize, parse_digest_string,
  hash_digest_size,
}
use openbao_attested_unseal.Tpm.Quote.{TpmEvidence, QuoteClaims, verify_quote}

abbrev pub policy_mode_tpm_only : Text
policy_mode_tpm_only = codes "tpm-only"

abbrev pub policy_mode_secure_boot : Text
policy_mode_secure_boot = codes "secureboot"

abbrev pub policy_mode_measured : Text
policy_mode_measured = codes "measured"

abbrev pub profile_generic_pc_secure_boot : Text
profile_generic_pc_secure_boot = codes "generic-pc-secureboot"

pub record TpmPolicy : Type 0 where
  pub mode : Text
  pub enrolled_ak_public_hash : Text
  pub pcr_policy : Option PcrPolicy
  pub provider_profile : Text

pub record Claims : Type 0 where
  pub subject_fingerprint : Text
  pub ak_public_hash : Text
  pub pcr_selection : PcrSelection
  pub pcr_digest : Text
  pub secure_boot : Bool
  pub fresh : Bool
  pub policy_mode : Text
  pub provider_profile : Text

abbrev is_mode : Text → Bool
is_mode mode =
    text_eq mode policy_mode_tpm_only
    || (text_eq mode policy_mode_secure_boot || text_eq mode policy_mode_measured)

-- The claims that a quote and a policy give, before the mode is looked at.
unfoldable pub claims_of : QuoteClaims → TpmPolicy → Bool → Claims
claims_of q p secure_boot = record {
  subject_fingerprint = q.ak_public_hash;
  ak_public_hash = q.ak_public_hash;
  pcr_selection = q.pcr_selection;
  pcr_digest = q.pcr_digest;
  secure_boot = secure_boot;
  fresh = true;
  policy_mode = p.mode;
  provider_profile = p.provider_profile;
}

-- verifySecureBootPolicy
unfoldable pub verify_secure_boot_policy : QuoteClaims → PcrPolicy → Result (Unit {0})
verify_secure_boot_policy q p = do
  guard (text_eq p.expected_digest q.pcr_digest) attestation_policy
  guard (same_selection p.selection q.pcr_selection) attestation_policy

-- The switch of EvaluatePolicy. A secure-boot policy without a PCR policy does not pass Validate, so
-- that the source never follows its nil pointer there.
unfoldable pub evaluate_mode : QuoteClaims → TpmPolicy → Result Claims
evaluate_mode q p =
    if text_eq p.mode policy_mode_tpm_only
    then ok (claims_of q p false)
    else if text_eq p.mode policy_mode_secure_boot
    then elim (p.pcr_policy) [
      | none ↦ err attestation_policy
      | some pcr ↦ do verify_secure_boot_policy q pcr; ok (claims_of q p true)
    ]
    else err attestation_policy

module _ (x : TpmLibrary) where
  -- PCRPolicy.Validate
  unfoldable pub validate_pcr_policy : PcrPolicy → Result (Unit {0})
  validate_pcr_policy p = do
    selection ← wrap_err (normalize x p.selection) attestation_policy
    parsed ← wrap_err (parse_digest_string x p.expected_digest) attestation_policy
    guard (text_eq (parsed.0) selection.hash) attestation_policy
    size ← hash_digest_size x (parsed.0)
    guard (length (parsed.1) == size) attestation_policy

  -- The check of EnrolledAKPublicHash.
  unfoldable pub validate_ak_hash : Text → Result (Unit {0})
  validate_ak_hash hash = do
    parsed ← wrap_err (parse_digest_string x hash) attestation_policy
    guard (text_eq (parsed.0) (hash_name sha256) && length (parsed.1) == 32) attestation_policy

  -- What Validate asks of a secure-boot policy.
  unfoldable pub validate_secure_boot : TpmPolicy → Result (Unit {0})
  validate_secure_boot p = do
    guard (not (is_empty p.provider_profile)) attestation_policy
    guard (text_eq p.provider_profile profile_generic_pc_secure_boot) unsupported_profile
    elim (p.pcr_policy) [
      | none ↦ err attestation_policy
      | some pcr ↦ do
        validate_pcr_policy pcr
        guard (contains_pcr (pos 7) pcr.selection.pcrs) attestation_policy
    ]

  -- Policy.Validate
  unfoldable pub validate_policy : TpmPolicy → Result (Unit {0})
  validate_policy p = do
    let mode = trim_space p.mode
    guard (is_mode mode) attestation_policy
    if is_empty p.enrolled_ak_public_hash then ok tt else validate_ak_hash p.enrolled_ak_public_hash
    if text_eq mode policy_mode_secure_boot then validate_secure_boot p else ok tt

  -- EvaluatePolicy
  unfoldable pub evaluate_policy : TpmEvidence → Text → TpmPolicy → Result Claims
  evaluate_policy e nonce p = do
    validate_policy p
    q ← verify_quote x e nonce
    guard (is_empty p.enrolled_ak_public_hash || text_eq p.enrolled_ak_public_hash q.ak_public_hash)
        attestation_policy
    evaluate_mode q p
