-- ===== src/Broker/EnrollmentService/PolicyMessage.antt =====
-- internal/broker/enrollment_service.go: a TPM policy goes through its message unchanged.
use openbao_attested_unseal.Prelude.{
  ◌≡◌, refl, ℕ, ◌<◌, ◌%◌, ◌^◌, some, false, ltb, inl, inr, Option-cases, List, [], ◌∷◌, All, arith,
}
use openbao_attested_unseal.Prelude.Int.{ℤ, pos}
use openbao_attested_unseal.Prelude.Trim.{trim_space}
use openbao_attested_unseal.Tpm.Pcr.{PcrPolicy}
use openbao_attested_unseal.Tpm.Policy.{TpmPolicy}
use openbao_attested_unseal.Broker.EnrollmentService.Message.{
  parsed, pcr_indexes, to_uint32s, tpm_policy_from_proto, tpm_policy_to_proto,
}

-- The index of a PCR, 0 to 23.
abbrev IsPcr : ℤ → Type 0
IsPcr p = (n : ℕ) × (p ≡ pos n) × (n < 24)

abbrev IsTrimmedPcrs : PcrPolicy → Type 0
IsTrimmedPcrs p =
    (trim_space (p.selection).hash ≡ (p.selection).hash)
    × (trim_space p.expected_digest ≡ p.expected_digest)
    × (trim_space p.profile ≡ p.profile)
    × (p.captured_values ≡ [])
    × All IsPcr (p.selection).pcrs

-- A policy without surrounding space and captured values, whose PCRs are in range.
pub record IsPlain (p : TpmPolicy) : Type 0 where
  pub mode : trim_space p.mode ≡ p.mode
  pub key : trim_space p.enrolled_ak_public_hash ≡ p.enrolled_ak_public_hash
  pub profile : trim_space p.provider_profile ≡ p.provider_profile
  pub pcrs : (q : PcrPolicy) → p.pcr_policy ≡ some q → IsTrimmedPcrs q

pcr_indexes-to_uint32s : (ps : List ℤ) → All IsPcr ps → pcr_indexes (to_uint32s ps) ≡ parsed ps
unfolding pcr_indexes
pcr_indexes-to_uint32s [] h = refl
pcr_indexes-to_uint32s (p ∷ ps) ((n, same, small), rest) =
    let kept : n % 2 ^ 32 ≡ n = omega (arith, small) in
    let inside : ltb 23 n ≡ false = ground (arith, small) in
    rw same (rw kept (rw inside (rw (pcr_indexes-to_uint32s ps rest) refl)))

-- A TPM policy without surrounding space and captured values whose PCRs are 0 to 23 is what
-- tpmPolicyFromProto makes of the message that nodeEvidenceEnrollmentToProto makes of it.
pub tpm_policy_from_proto-tpm_policy_to_proto :
    (p : TpmPolicy) → IsPlain p → tpm_policy_from_proto (tpm_policy_to_proto p) ≡ parsed p
unfolding tpm_policy_from_proto tpm_policy_to_proto
tpm_policy_from_proto-tpm_policy_to_proto p plain = elim (Option-cases p.pcr_policy) [
  | inl none_given ↦ rw none_given (rw (plain.mode, plain.key, plain.profile) refl)
  | inr (q, given) ↦
      let (hash, digest, profile, no_values, in_range) = plain.pcrs q given in
      rw given (
        rw (pcr_indexes-to_uint32s (q.selection).pcrs in_range)
          (rw (plain.mode, plain.key, plain.profile, hash, digest, profile, no_values) refl))
]
