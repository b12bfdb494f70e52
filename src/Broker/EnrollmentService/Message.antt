-- ===== src/Broker/EnrollmentService/Message.antt =====
-- internal/broker/enrollment_service.go: the messages of the service, and what they stand for.
use openbao_attested_unseal.Prelude.{
  ℕ, ◌-◌, ◌/◌, ◌%◌, ◌^◌, Bool, ltb, length, ◌||◌, Option, none, some, List, [], ◌∷◌, ◌++◌,
  if◌then◌else◌,
}
use openbao_attested_unseal.Prelude.Result.{Error, Result, ok, err}
use openbao_attested_unseal.Prelude.Int.{ℤ, pos, negsuc}
use openbao_attested_unseal.Prelude.Text.{Text, codes, is_empty}
use openbao_attested_unseal.Prelude.Trim.{trim_space}
use openbao_attested_unseal.Prelude.Decimal.{format_uint}
use openbao_attested_unseal.Tpm.Library.{TpmLibrary}
use openbao_attested_unseal.Tpm.Pcr.{PcrPolicy}
use openbao_attested_unseal.Tpm.Policy.{TpmPolicy}
use openbao_attested_unseal.Nodeevidence.Enrollment.{
  EnrollmentRequest, Enrollment, normalize_enrollment_request,
}
use openbao_attested_unseal.Broker.EnrollmentService.{AuditContext}

-- NodeEvidencePCRPolicy; a PCR is a uint32.
pub record PcrPolicyMessage : Type 0 where
  pub hash : Text
  pub pcrs : List ℕ
  pub expected_digest : Text
  pub profile : Text

-- NodeEvidenceTPMPolicy
pub record PolicyMessage : Type 0 where
  pub mode : Text
  pub enrolled_ak_public_hash : Text
  pub pcr_policy : Option PcrPolicyMessage
  pub provider_profile : Text

-- NodeEvidenceEnrollmentRequest
pub record EnrollMessage : Type 0 where
  pub cluster_id : Text
  pub node_name : Text
  pub node_uid : Text
  pub provider_id : Text
  pub tpm_policy : Option PolicyMessage
  pub publisher_certificate_sha256 : List Text
  pub reason : Text
  pub audit : Option AuditContext

-- NodeEvidenceRevocationRequest
pub record RevokeMessage : Type 0 where
  pub cluster_id : Text
  pub node_name : Text
  pub reason : Text
  pub audit : Option AuditContext

-- NodeEvidenceEnrollmentListRequest
pub record ListMessage : Type 0 where
  pub cluster_id : Text
  pub node_name : Text
  pub include_revoked : Bool
  pub audit : Option AuditContext

-- NodeEvidenceEnrollmentRecord
pub record EnrollmentMessage : Type 0 where
  pub cluster_id : Text
  pub node_name : Text
  pub node_uid : Text
  pub provider_id : Text
  pub tpm_policy : PolicyMessage
  pub publisher_certificate_sha256 : List Text
  pub revision : ℕ
  pub enrolled_unix_seconds : ℕ
  pub updated_unix_seconds : ℕ
  pub revoked_unix_seconds : ℕ

-- A value, or the text of the error.
pub data Parsed {ℓ} (V : Type ℓ) : Type ℓ where
  parsed : V → Parsed V
  unparsed : Text → Parsed V

-- `if err != nil { return err }`, and what follows it
abbrev pub and_then {ℓ κ} : {V : Type ℓ} {W : Type κ} → Parsed V → (V → Parsed W) → Parsed W
and_then (parsed v) next = next v
and_then (unparsed reason) next = unparsed reason

abbrev pub of_result {ℓ} : {V : Type ℓ} → (Error → Text) → Result V → Parsed V
of_result error_text (ok v) = parsed v
of_result error_text (err e) = unparsed (error_text e)

-- normalizeEnrollmentReason
unfoldable pub normalize_enrollment_reason : Text → Parsed Text
normalize_enrollment_reason value =
    let reason = trim_space value in
    if is_empty reason
    then unparsed (codes "reason is required")
    else if ltb 1024 (length reason)
    then unparsed (codes "reason exceeds maximum size")
    else parsed reason

-- The loop over the PCRs of a policy.
unfoldable pub pcr_indexes : List ℕ → Parsed (List ℤ)
pcr_indexes [] = parsed []
pcr_indexes (p ∷ ps) =
    if ltb 23 p
    then unparsed (codes "PCR index " ++ format_uint p ++ codes " is out of range")
    else and_then (pcr_indexes ps) (λ rest. parsed (pos p ∷ rest))

abbrev pub policy_of : PolicyMessage → Option PcrPolicy → TpmPolicy
policy_of p pcr = record {
  mode = trim_space p.mode;
  enrolled_ak_public_hash = trim_space p.enrolled_ak_public_hash;
  pcr_policy = pcr;
  provider_profile = trim_space p.provider_profile;
}

abbrev pub pcr_policy_of : PcrPolicyMessage → List ℤ → PcrPolicy
pcr_policy_of p indexes = record {
  selection = record { hash = trim_space p.hash; pcrs = indexes };
  expected_digest = trim_space p.expected_digest;
  captured_values = [];
  profile = trim_space p.profile;
}

-- tpmPolicyFromProto
unfoldable pub tpm_policy_from_proto : PolicyMessage → Parsed TpmPolicy
tpm_policy_from_proto p = elim (p.pcr_policy) [
  | none ↦ parsed (policy_of p none)
  | some m ↦ and_then (pcr_indexes m.pcrs) (λ is. parsed (policy_of p (some (pcr_policy_of m is))))
]

abbrev pub request_from : EnrollMessage → TpmPolicy → ℕ → EnrollmentRequest
request_from m policy now = record {
  cluster_id = m.cluster_id;
  node_name = m.node_name;
  node_uid = m.node_uid;
  provider = m.provider_id;
  tpm_policy = policy;
  publisher_certificate_hashes = m.publisher_certificate_sha256;
  enrolled_at = now;
}

-- nodeEvidenceEnrollmentRequestFromProto: the request and its reason
unfoldable pub enrollment_request_from_proto :
    TpmLibrary → (Error → Text) → Option EnrollMessage → ℕ → Parsed (EnrollmentRequest × Text)
enrollment_request_from_proto x error_text none now =
    unparsed (codes "node evidence enrollment and TPM policy are required")
enrollment_request_from_proto x error_text (some m) now = elim (m.tpm_policy) [
  | none ↦ unparsed (codes "node evidence enrollment and TPM policy are required")
  | some p ↦ and_then (normalize_enrollment_reason m.reason) (λ reason.
      and_then (tpm_policy_from_proto p) (λ policy.
        and_then (of_result error_text (normalize_enrollment_request x (request_from m policy now)))
          (λ r. parsed (r, reason))))
]

-- nodeEvidenceRevocationRequestFromProto: the cluster and the node, and the reason
unfoldable pub revocation_request_from_proto : Option RevokeMessage → (Text × Text) × Parsed Text
revocation_request_from_proto none =
    (([], []), unparsed (codes "node evidence revocation request is required"))
revocation_request_from_proto (some m) =
    let cluster_id = trim_space m.cluster_id in
    let node_name = trim_space m.node_name in
    if is_empty cluster_id || is_empty node_name
    then ((cluster_id, node_name), unparsed (codes "cluster_id and node_name are required"))
    else ((cluster_id, node_name), normalize_enrollment_reason m.reason)

-- uint32(index)
abbrev pub to_uint32 : ℤ → ℕ
to_uint32 (pos n) = n % 2 ^ 32
to_uint32 (negsuc n) = 2 ^ 32 - 1 - n % 2 ^ 32

abbrev pub to_uint32s : List ℤ → List ℕ
to_uint32s [] = []
to_uint32s (p ∷ ps) = to_uint32 p ∷ to_uint32s ps

abbrev pub pcr_policy_to_proto : Option PcrPolicy → Option PcrPolicyMessage
pcr_policy_to_proto none = none
pcr_policy_to_proto (some p) = some (record {
  hash = (p.selection).hash;
  pcrs = to_uint32s (p.selection).pcrs;
  expected_digest = p.expected_digest;
  profile = p.profile;
})

-- The policy of nodeEvidenceEnrollmentToProto.
unfoldable pub tpm_policy_to_proto : TpmPolicy → PolicyMessage
tpm_policy_to_proto p = record {
  mode = p.mode;
  enrolled_ak_public_hash = p.enrolled_ak_public_hash;
  pcr_policy = pcr_policy_to_proto p.pcr_policy;
  provider_profile = p.provider_profile;
}

-- nodeEvidenceEnrollmentToProto; the zero time of a revocation is 0 seconds.
unfoldable pub enrollment_to_proto : Enrollment → EnrollmentMessage
enrollment_to_proto e = record {
  cluster_id = e.cluster_id;
  node_name = e.node_name;
  node_uid = e.node_uid;
  provider_id = e.provider;
  tpm_policy = tpm_policy_to_proto e.tpm_policy;
  publisher_certificate_sha256 = e.publisher_certificate_hashes;
  revision = e.revision;
  enrolled_unix_seconds = e.enrolled_at / 10 ^ 9;
  updated_unix_seconds = e.updated_at / 10 ^ 9;
  revoked_unix_seconds = e.revoked_at / 10 ^ 9;
}
