-- ===== src/Broker/Admin.antt =====
-- internal/broker/admin.go: the administrative service, over the challenges of memory_challenge.go and
-- the tables of nodes of sqlite.go. A nil request is `none`.
-- A sink that is not configured, or that fails, is passed over.
pub mod Issue
pub mod Publish
pub mod Accepted
pub mod Attested
pub mod NodeList
pub mod CheckReasons
pub mod Check
pub mod CheckAgrees
use openbao_attested_unseal.Prelude.{
  ℕ, ◌+◌, ◌-◌, ◌*◌, ◌/◌, ◌^◌, Bool, true, false, not, ltb, leb, ◌==◌, ◌&&◌, ◌||◌, Option, none,
  some, List, [], ◌∷◌, ◌++◌, if◌then◌else◌,
}
use openbao_attested_unseal.Prelude.Result.{
  Error, Result, ok, err, node_evidence_invalid, challenge_expired, challenge_replayed,
  challenge_not_found, challenge_mismatch, ◌>>=◌, ◌>>◌,
}
use openbao_attested_unseal.Prelude.Text.{Text, codes, text_eq, is_empty}
use openbao_attested_unseal.Prelude.Trim.{trim_space}
use openbao_attested_unseal.Tpm.Library.{TpmLibrary}
use openbao_attested_unseal.Tpm.Quote.{TpmEvidence}
use openbao_attested_unseal.Broker.Challenge.{Challenge, StoredChallenge, create_challenge}
use openbao_attested_unseal.Broker.Policy.{
  PolicyDecision, allow, deny, invalid_request, permission_denied, internal,
}
use openbao_attested_unseal.Broker.Audit.{
  AuditAttempt, AuditLogs, insert_audit_event, write_audit_event,
}
use openbao_attested_unseal.Nodeevidence.Evidence.{
  NodeChallengeRequest, provider_fake_local, normalize_challenge_request, join_nul,
}
use openbao_attested_unseal.Nodeevidence.Enrollment.{Enrollment}
use openbao_attested_unseal.Broker.NodeRows.{NodeText, NodeTables}
use openbao_attested_unseal.Broker.NodeRows.Enroll.{active_enrollment}
use openbao_attested_unseal.Broker.NodeVerifier.{
  Authorization, granted, refused, payload_hash, authorize_publisher,
}

-- OPERATION_ENROLL
abbrev pub operation_enroll : ℕ
operation_enroll = 3

-- DefaultChallengeTTL, DefaultKubernetesNodeEvidenceTTL and DefaultKubernetesNodeEvidenceRetention
abbrev pub default_challenge_ttl : ℕ
default_challenge_ttl = 120 * 10 ^ 9

abbrev pub default_node_evidence_ttl : ℕ
default_node_evidence_ttl = 300 * 10 ^ 9

abbrev pub default_node_evidence_retention : ℕ
default_node_evidence_retention = 86400 * 10 ^ 9

-- What the service takes from elsewhere: the library of the TPM, encoding/json on TPM evidence, the
-- texts of the tables, the text of an error, and %q.
pub record AdminLibrary : Type 0 where
  pub tpm : TpmLibrary
  pub rows : NodeText
  pub unmarshal_evidence : Text → Result TpmEvidence
  pub error_text : Error → Text
  pub quote : Text → Text

-- AdminService; a duration that is not positive is 0.
pub record AdminService : Type 0 where
  pub library : AdminLibrary
  pub has_node_evidence : Bool
  pub has_enrollments : Bool
  pub cluster_id : Text
  pub policy_id : Text
  pub challenge_ttl : ℕ
  pub node_evidence_ttl : ℕ
  pub node_evidence_retention : ℕ
  pub allow_fake_publish : Bool
  pub publish_providers : List Text

-- The audit sinks of AdminService that are configured, and what the one attempt of a call to audit meets.
pub record NodeAuditSinks : Type 0 where
  pub has_store : Bool
  pub has_file : Bool
  pub attempt : AuditAttempt

-- What one call takes from outside: the raw certificate of the peer, the readings of the clock for the
-- request, for the retention and for the answer, what crypto/rand gives, and the audit sinks.
pub record AdminCall : Type 0 where
  pub certificate : Option Text
  pub now : ℕ
  pub retention_now : ℕ
  pub answer_now : ℕ
  pub challenge_id : Result Text
  pub nonce : Result Text
  pub sinks : NodeAuditSinks

-- AuditEvent, with the identifier and the time that newNodeEvidenceAuditEvent gives it and the arguments
-- of auditNodeEvidence; the address of the peer is left out.
pub record NodeAudit : Type 0 where
  pub audit_id : Text
  pub time : ℕ
  pub operation : Text
  pub cluster_id : Text
  pub node_name : Text
  pub evidence_hash : Text
  pub decision : PolicyDecision

pub record AdminState : Type 0 where
  pub challenges : List StoredChallenge
  pub nodes : NodeTables
  pub audit : AuditLogs NodeAudit

pub record NodeChallengeResponse : Type 0 where
  pub challenge_id : Text
  pub nonce : Text
  pub expires_unix_seconds : ℕ
  pub decision : PolicyDecision

-- newNodeEvidenceAuditEvent
abbrev pub node_audit : Text → Text → Text → Text → PolicyDecision → Text → ℕ → NodeAudit
node_audit operation cluster_id node_name hash decision id time = record {
  audit_id = id;
  time = time;
  operation = operation;
  cluster_id = cluster_id;
  node_name = node_name;
  evidence_hash = hash;
  decision = decision;
}

-- auditNodeEvidence, on the logs; each sink may be missing.
unfoldable pub record_node_audit :
    NodeAuditSinks → (Text → ℕ → NodeAudit) → AuditLogs NodeAudit → AuditLogs NodeAudit
record_node_audit k event logs =
    if not (k.has_store || k.has_file) then logs else elim (k.attempt.audit_id) [
      | err _ ↦ logs
      | ok id ↦
          let e = event id k.attempt.time in
          let kept = if k.has_store then insert_audit_event k.attempt.insert e logs else logs in
          if k.has_file then write_audit_event k.attempt.write e kept else kept
    ]

-- auditNodeEvidence
abbrev pub audit_node_evidence :
    AdminCall → Text → Text → Text → Text → PolicyDecision → AdminState → AdminState
audit_node_evidence c operation cluster_id node_name hash decision s = record s {
  audit =
      record_node_audit c.sinks (node_audit operation cluster_id node_name hash decision) s.audit;
}

-- acceptsNodeEvidenceCluster
unfoldable pub accepts_cluster : AdminService → Text → Bool
accepts_cluster a cluster_id = is_empty a.cluster_id || text_eq a.cluster_id (trim_space cluster_id)

unfoldable pub contains_trimmed : Text → List Text → Bool
contains_trimmed t [] = false
contains_trimmed t (u ∷ us) = text_eq (trim_space u) t || contains_trimmed t us

-- canPublishNodeEvidenceProvider
unfoldable pub can_publish_provider : AdminService → Text → Bool
can_publish_provider a provider =
    let id = trim_space provider in
    if is_empty id
    then false
    else if text_eq id provider_fake_local && a.allow_fake_publish
    then true
    else contains_trimmed id a.publish_providers

-- nodeEvidenceChallengeSubject
unfoldable pub challenge_subject : AdminService → NodeChallengeRequest → Text → Text
challenge_subject a r publisher =
    codes "node-evidence:"
    ++ payload_hash a.library.tpm a.library.unmarshal_evidence
        (join_nul (r.cluster_id ∷ r.node_name ∷ r.node_uid ∷ r.provider ∷ publisher ∷ []))

-- nodeEvidenceChallengeDeny
unfoldable pub challenge_refusal : Text → Error → PolicyDecision
challenge_refusal policy_id challenge_expired =
    deny policy_id permission_denied (codes "node evidence challenge expired")
challenge_refusal policy_id challenge_replayed =
    deny policy_id permission_denied (codes "node evidence challenge was replayed")
challenge_refusal policy_id challenge_not_found =
    deny policy_id permission_denied (codes "node evidence challenge is invalid")
challenge_refusal policy_id challenge_mismatch =
    deny policy_id permission_denied (codes "node evidence challenge is invalid")
challenge_refusal policy_id _ =
    deny policy_id internal (codes "node evidence challenge validation failed")

-- acceptedNodeEvidenceTTL
unfoldable pub accepted_ttl : AdminService → ℕ → ℕ
accepted_ttl a requested =
    let maximum =
      if a.node_evidence_ttl == 0 then default_node_evidence_ttl else a.node_evidence_ttl in
    if ltb maximum requested then maximum else requested

-- The reason for a provider that may not be published.
unfoldable pub provider_reason : AdminService → Text → Text
provider_reason a provider =
    codes "node evidence publish provider " ++ a.library.quote provider ++ codes " is not enabled"

-- The repository of enrollments of AdminService, with its query of the active one
abbrev pub active_in : AdminService → NodeTables → Text → Text → Option (Result Enrollment)
active_in a nodes cluster_id node_name =
    if a.has_enrollments
    then some (active_enrollment a.library.tpm a.library.rows cluster_id node_name nodes)
    else none

-- authorizeNodeEvidencePublisher
unfoldable pub authorize :
    AdminService → AdminCall → NodeTables → Text → Text → Text → Text → Authorization
authorize a c nodes cluster_id node_name node_uid provider =
    authorize_publisher a.library.tpm a.library.unmarshal_evidence c.certificate provider node_uid
      (active_in a nodes cluster_id node_name)

-- The refusals of a handler before it changes anything: the cluster, the provider and the publisher.
unfoldable pub authorize_request :
    AdminService → AdminCall → NodeTables → Text → Text → Text → Text → Authorization
authorize_request a c nodes cluster_id node_name node_uid provider =
    if not (accepts_cluster a cluster_id)
    then refused permission_denied (codes "node evidence cluster is not configured")
    else if not (can_publish_provider a provider)
    then refused permission_denied (provider_reason a provider)
    else authorize a c nodes cluster_id node_name node_uid provider
