-- ===== src/Broker/NodeVerifier.antt =====
-- internal/broker/node_evidence_verifier.go and node_evidence_authorization.go: who may publish the
-- evidence of a node, and what the broker verifies of it. `certificate` is the raw certificate of the
-- TLS peer, where there is one.
pub mod Granted
use openbao_attested_unseal.Prelude.{
  ℕ, ◌*◌, not, length, ltb, ◌&&◌, Option, none, some, [], ◌++◌, if◌then◌else◌,
}
use openbao_attested_unseal.Prelude.Result.{
  Error, Result, ok, err, enrollment_not_found, enrollment_revoked, evidence_verification, ◌>>=◌,
  ◌>>◌, guard, wrap_err,
}
use openbao_attested_unseal.Prelude.Text.{Text, codes, text_eq}
use openbao_attested_unseal.Prelude.Hex.{encode_hex}
use openbao_attested_unseal.Prelude.Trim.{trim_space}
use openbao_attested_unseal.Tpm.Library.{TpmLibrary, sha256}
use openbao_attested_unseal.Tpm.Quote.{TpmEvidence, validate_evidence}
use openbao_attested_unseal.Tpm.Policy.{evaluate_policy}
use openbao_attested_unseal.Broker.Policy.{
  NodeEvidence, ErrorCode, unauthenticated, permission_denied, internal,
}
use openbao_attested_unseal.Nodeevidence.Evidence.{
  Submission, NodeChallengeRequest, provider_fake_local, provider_tpm2_quote, format_fake_local,
  fake_local_payload,
}
use openbao_attested_unseal.Nodeevidence.Enrollment.{
  Enrollment, is_active_enrollment, authorizes_publisher,
}

-- tpm.EvidenceFormat
abbrev pub format_tpm2_quote : Text
format_tpm2_quote = codes "openbao-attested-unseal.tpm2-quote.v1"

abbrev pub max_payload_size : ℕ
max_payload_size = 1024 * 1024

-- The challenge request that a submission answers.
abbrev pub challenge_request_of : Submission → NodeChallengeRequest
challenge_request_of s = record {
  cluster_id = s.cluster_id;
  node_name = s.node_name;
  node_uid = s.node_uid;
  provider = s.provider;
}

pub data Authorization : Type 0 where
  -- the enrollment, where the provider needs one, and the hash of the publisher's certificate
  granted : Option Enrollment → Text → Authorization
  refused : ErrorCode → Text → Authorization

-- The answer to an error of ActiveNodeEvidenceEnrollment.
unfoldable pub enrollment_refusal : Error → Authorization
enrollment_refusal enrollment_not_found =
    refused permission_denied (codes "node TPM identity is not enrolled")
enrollment_refusal enrollment_revoked =
    refused permission_denied (codes "node TPM identity is not enrolled")
enrollment_refusal _ = refused internal (codes "node evidence enrollment lookup failed")

module _ (x : TpmLibrary) (unmarshal_evidence : Text → Result TpmEvidence) where
  -- nodeEvidencePayloadHash, and nodeEvidenceClientCertificateHash on a certificate
  unfoldable pub payload_hash : Text → Text
  payload_hash payload = codes "sha256:" ++ encode_hex (x.sum sha256 payload)

  -- What authorizeNodeEvidencePublisher checks of an active enrollment.
  unfoldable pub authorize_enrollment : Text → Text → Enrollment → Text → Authorization
  authorize_enrollment provider node_uid e hash =
      if text_eq e.provider provider && text_eq e.node_uid node_uid
      then if authorizes_publisher e hash
        then granted (some e) hash
        else refused permission_denied
            (codes "node evidence publisher is not authorized for this node")
      else refused permission_denied (codes "node TPM identity is not enrolled")

  -- authorizeNodeEvidencePublisher, over the query of the active enrollment of the node, which is `none`
  -- where enrollments are not stored
  unfoldable pub authorize_publisher :
      Option Text → Text → Text → Option (Result Enrollment) → Authorization
  authorize_publisher certificate provider node_uid enrollment =
      if not (text_eq provider provider_tpm2_quote) then granted none [] else elim certificate [
        | none ↦
            refused unauthenticated
              (codes "node evidence publisher requires an authenticated client certificate")
        | some raw ↦ elim enrollment [
          | none ↦ refused internal (codes "node evidence enrollment storage is not configured")
          | some (err e) ↦ enrollment_refusal e
          | some (ok e) ↦ authorize_enrollment provider node_uid e (payload_hash raw)
        ]
      ]

  -- tpm.UnmarshalEvidence
  unfoldable pub read_evidence : Text → Result TpmEvidence
  read_evidence payload = do e ← unmarshal_evidence payload; validate_evidence x e; ok e

  -- verifyFakeLocalSubmission
  unfoldable pub verify_fake_local : Submission → Text → Result (Unit {0})
  verify_fake_local s nonce = do
    guard (text_eq s.format format_fake_local) evidence_verification
    expected ←
        wrap_err
          (fake_local_payload (x.sum sha256) (challenge_request_of s)
            (record { id = s.challenge_id; nonce = nonce; expires_at = 0 }))
          evidence_verification
    guard (text_eq expected s.payload) evidence_verification

  -- verifyTPMNodeEvidenceSubmission
  unfoldable pub verify_tpm : Submission → Text → Enrollment → Result (Unit {0})
  verify_tpm s nonce e = do
    guard (text_eq s.format format_tpm2_quote) evidence_verification
    guard
        (is_active_enrollment e
          && (text_eq e.node_name s.node_name && text_eq e.cluster_id s.cluster_id))
        evidence_verification
    guard (text_eq (trim_space e.node_uid) s.node_uid) evidence_verification
    evidence ← wrap_err (read_evidence s.payload) evidence_verification
    guard (text_eq evidence.challenge_id s.challenge_id) evidence_verification
    _ ← wrap_err (evaluate_policy x evidence nonce e.tpm_policy) evidence_verification
    ok tt

  -- The switch of verifyNodeEvidenceSubmission. Without an enrollment the source has the empty record,
  -- whose node name no submission has.
  unfoldable pub verify_provider : Submission → Text → Option Enrollment → Result (Unit {0})
  verify_provider s nonce enrollment =
      if text_eq s.provider provider_fake_local
      then verify_fake_local s nonce
      else if text_eq s.provider provider_tpm2_quote
      then elim enrollment [ none ↦ err evidence_verification | some e ↦ verify_tpm s nonce e ]
      else err evidence_verification

  -- verifyNodeEvidenceSubmission; the times are set by its caller
  unfoldable pub verify_submission : Submission → Text → Option Enrollment → Result NodeEvidence
  verify_submission s nonce enrollment = do
    guard (not (ltb max_payload_size (length s.payload))) evidence_verification
    verify_provider s nonce enrollment
    ok (record {
      cluster_id = s.cluster_id;
      node_name = s.node_name;
      node_uid = s.node_uid;
      provider = s.provider;
      evidence_hash = payload_hash s.payload;
      collected_at = 0;
      expires_at = 0;
    })
