-- ===== src/Broker/Admin/CheckReasons.antt =====
-- internal/broker/admin.go: the answers of CheckEvidence to evidence that is not verified.
use openbao_attested_unseal.Prelude.{Bool, ◌||◌, List, [], ◌∷◌, if◌then◌else◌}
use openbao_attested_unseal.Prelude.Text.{Text, codes, is_empty, has_prefix}
use openbao_attested_unseal.Broker.Policy.{
  PolicyDecision, deny, unauthenticated, attestation_failed, broker_unavailable,
}

-- The errors of EvidenceVerifier that a check tells apart. ErrUnauthenticated wraps ErrInvalidEvidence
-- and is tested first; `invalid_workload` has the text of the error.
pub data VerifyError : Type 0 where
  token_review_failed token_unauthenticated unverified : VerifyError
  invalid_workload : Text → VerifyError

-- strings.Contains
unfoldable pub has_fragment : Text → Text → Bool
has_fragment fragment [] = is_empty fragment
has_fragment fragment (c ∷ t) = has_prefix (c ∷ t) fragment || has_fragment fragment t

-- safeEvidenceCheckReasons
abbrev pub safe_reasons : List (Text × Text)
safe_reasons =
    (codes "audience was not accepted", codes "kubernetes token audience was not accepted")
    ∷ (codes "namespace is not allowed", codes "kubernetes namespace is not allowed")
    ∷ (codes "service account is not allowed", codes "kubernetes service account is not allowed")
    ∷ (codes "token is required", codes "kubernetes token is required")
    ∷ (codes "pod-bound token claims are required", codes "pod-bound token claims are required")
    ∷ (
      codes "pod-bound token node claim is required",
      codes "pod-bound token node claim is required",
    )
    ∷ (codes "pod name and UID claims are required", codes "pod name and UID claims are required")
    ∷ (codes "pod lookup failed", codes "kubernetes pod lookup failed")
    ∷ (codes "pod UID does not match token", codes "pod UID does not match token")
    ∷ (codes "pod node does not match token", codes "pod node does not match token")
    ∷ (codes "pod is not scheduled to a node", codes "pod is not scheduled to a node")
    ∷ (
      codes "username is not a service account",
      codes "kubernetes username is not a service account",
    )
    ∷ (
      codes "service account username is incomplete",
      codes "kubernetes service account username is incomplete",
    )
    ∷ (
      codes "provider is not Kubernetes workload",
      codes "evidence provider is not Kubernetes workload",
    )
    ∷ (codes "unsupported evidence format", codes "unsupported Kubernetes evidence format")
    ∷ (codes "payload is required", codes "evidence payload is required")
    ∷ (codes "payload exceeds maximum size", codes "evidence payload exceeds maximum size")
    ∷ (codes "decode payload", codes "evidence payload could not be decoded")
    ∷ []

unfoldable pub reason_among : Text → List (Text × Text) → Text
reason_among message [] = codes "attestation verification failed"
reason_among message ((fragment, reason) ∷ items) =
    let rest = reason_among message items in if has_fragment fragment message then reason else rest

-- safeEvidenceCheckReason
abbrev pub safe_check_reason : Text → Text
safe_check_reason message = reason_among message safe_reasons

-- evidenceCheckVerificationDeny
unfoldable pub verification_deny : Text → VerifyError → PolicyDecision
verification_deny policy_id token_review_failed =
    deny policy_id broker_unavailable (codes "kubernetes tokenreview failed")
verification_deny policy_id token_unauthenticated =
    deny policy_id unauthenticated (codes "kubernetes token is not authenticated")
verification_deny policy_id (invalid_workload message) =
    deny policy_id attestation_failed (safe_check_reason message)
verification_deny policy_id unverified =
    deny policy_id attestation_failed (codes "attestation verification failed")
