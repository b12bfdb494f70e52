-- ===== src/Broker/Admin/Check.antt =====
-- internal/broker/admin.go: the handler CheckEvidence. A check takes the verifier that is configured, or
-- the development one where there is none.
use openbao_attested_unseal.Prelude.{
  ℕ, Bool, not, ◌&&◌, Option, none, some, [], ◌==◌, if◌then◌else◌,
}
use openbao_attested_unseal.Prelude.Result.{Result, ok, err}
use openbao_attested_unseal.Prelude.Text.{Text, codes, is_empty}
use openbao_attested_unseal.Prelude.Trim.{trim_space}
use openbao_attested_unseal.Prelude.Hex.{encode_hex}
use openbao_attested_unseal.Broker.Policy.{
  PolicyDecision, PolicyEngine, PolicyRequest, NodeEvidence, WorkloadIdentity, Reader, Store, deny,
  invalid_request, internal, operation_wrap, evaluate_subject,
}
use openbao_attested_unseal.Broker.Message.{EvidenceEnvelope, VerifiedEvidence, no_key_ref}
use openbao_attested_unseal.Broker.Admin.{NodeAudit, NodeAuditSinks, node_audit, record_node_audit}
use openbao_attested_unseal.Broker.Audit.{AuditLogs}
use openbao_attested_unseal.Broker.Admin.Publish.{NodeEvidenceRecord, node_evidence_to_proto}
use openbao_attested_unseal.Broker.Admin.CheckReasons.{VerifyError, verification_deny}

abbrev pub operation_check : Text
operation_check = codes "EVIDENCE_CHECK"

pub data Verification : Type 0 where
  verified_as : VerifiedEvidence → Verification
  rejected : VerifyError → Verification

pub record EvidenceCheckRequest : Type 0 where
  pub cluster_id : Text
  pub operation : ℕ
  pub evidence : Option EvidenceEnvelope

pub record EvidenceCheckResponse : Type 0 where
  pub decision : PolicyDecision
  pub subject : Text
  pub workload : Option WorkloadIdentity
  pub node_evidence : Option NodeEvidenceRecord

-- NodeEvidenceStore, as a check reads it: FreshNodeEvidence and NodeEvidence
pub record NodeReader : Type 0 where
  pub fresh : Text → Text → ℕ → Result NodeEvidence
  pub stored : Text → Text → Result NodeEvidence

abbrev pub fresh_reader : Option NodeReader → Reader
fresh_reader none = none
fresh_reader (some r) = some r.fresh

-- What AdminService gives a check, with the readings of its clock for the node evidence and for the
-- answer, SHA-256 and proto.Marshal on evidence, and the audit sinks. `has_store` is whether the store
-- is not nil.
pub record EvidenceChecker : Type 0 where
  pub policy_id : Text
  pub has_store : Bool
  pub node_evidence : Option NodeReader
  pub verify : EvidenceEnvelope → Verification
  pub sha256 : Text → Text
  pub marshal : EvidenceEnvelope → Result Text
  pub evidence_now : ℕ
  pub answer_now : ℕ
  pub sinks : NodeAuditSinks

-- reqEvidenceHash and evidenceHash
unfoldable pub evidence_hash : EvidenceChecker → Option EvidenceEnvelope → Text
evidence_hash k none = []
evidence_hash k (some e) = elim (k.marshal e) [
  | err _ ↦ []
  | ok encoded ↦ encode_hex (k.sha256 encoded)
]

-- req.GetEvidence()
abbrev pub request_evidence : Option EvidenceCheckRequest → Option EvidenceEnvelope
request_evidence none = none
request_evidence (some req) = req.evidence

-- workload == (WorkloadIdentity{})
abbrev pub is_no_workload : WorkloadIdentity → Bool
is_no_workload w =
    is_empty w.namespace
    && (is_empty w.service_account
        && (is_empty w.pod_name
            && (is_empty w.pod_uid && (is_empty w.node_name && is_empty w.node_uid))))

-- workloadIdentityToProto
abbrev pub workload_to_proto : WorkloadIdentity → Option WorkloadIdentity
workload_to_proto w = if is_no_workload w then none else some w

-- diagnosticNodeEvidence
unfoldable pub diagnostic_evidence : EvidenceChecker → Text → Text → Option NodeEvidenceRecord
diagnostic_evidence k cluster_id node_name = elim (k.node_evidence) [
  | none ↦ none
  | some r ↦
      if is_empty (trim_space node_name) then none else elim (r.stored cluster_id node_name) [
        | err _ ↦ none
        | ok e ↦ some (node_evidence_to_proto e k.answer_now)
      ]
]

-- auditEvidenceCheck, on the logs
abbrev audit_check :
    EvidenceChecker
    → Text
    → Text
    → Text
    → PolicyDecision
    → AuditLogs NodeAudit
    → AuditLogs NodeAudit
audit_check k cluster_id node_name hash decision =
    record_node_audit k.sinks (node_audit operation_check cluster_id node_name hash decision)

abbrev refuse_check :
    EvidenceChecker
    → Text
    → Text
    → PolicyDecision
    → AuditLogs NodeAudit
    → EvidenceCheckResponse × AuditLogs NodeAudit
refuse_check k cluster_id hash decision log = (
  record { decision = decision; subject = []; workload = none; node_evidence = none },
  audit_check k cluster_id [] hash decision log,
)

-- The engine that CheckEvidence makes. It consumes no challenge.
abbrev pub check_engine : EvidenceChecker → PolicyEngine
check_engine k = record {
  node_evidence = fresh_reader k.node_evidence;
  policy_id = k.policy_id;
  evidence_time = k.evidence_now;
  challenge_time = k.evidence_now;
}

-- The operation that is checked; OPERATION_UNSPECIFIED stands for WRAP.
abbrev pub checked_operation : ℕ → ℕ
checked_operation operation = if operation == 0 then operation_wrap else operation

-- The request that CheckEvidence puts to the policy.
unfoldable pub check_request : Text → VerifiedEvidence → ℕ → PolicyRequest
check_request cluster_id v operation = record {
  cluster_id = cluster_id;
  subject = v.subject;
  workload = v.workload;
  operation = checked_operation operation;
  challenge_id = [];
  key_ref = no_key_ref;
}

module _ (st : Store) (k : EvidenceChecker) (s : st.State) where
  -- CheckEvidence, on evidence that is verified
  unfoldable pub check_verified :
      Text
      → ℕ
      → EvidenceEnvelope
      → VerifiedEvidence
      → AuditLogs NodeAudit
      → EvidenceCheckResponse × AuditLogs NodeAudit
  check_verified cluster_id operation evidence v log =
      let decision =
        evaluate_subject st (check_engine k) (check_request cluster_id v operation) s in
      (
        record {
          decision = decision;
          subject = v.subject;
          workload = workload_to_proto v.workload;
          node_evidence = diagnostic_evidence k cluster_id v.workload.node_name;
        },
        audit_check k cluster_id v.workload.node_name (evidence_hash k (some evidence)) decision
            log,
      )

  -- CheckEvidence, on a cluster that is trimmed and evidence that is present
  unfoldable pub check_present :
      Text
      → ℕ
      → EvidenceEnvelope
      → AuditLogs NodeAudit
      → EvidenceCheckResponse × AuditLogs NodeAudit
  check_present cluster_id operation evidence log =
      let hash = evidence_hash k (some evidence) in
      if not k.has_store
      then refuse_check k cluster_id hash
          (deny k.policy_id internal (codes "policy store is not configured")) log
      else elim (k.verify evidence) [
        | rejected x ↦ refuse_check k cluster_id hash (verification_deny k.policy_id x) log
        | verified_as v ↦ check_verified cluster_id operation evidence v log
      ]

  -- CheckEvidence
  unfoldable pub check_evidence :
      Option EvidenceCheckRequest
      → AuditLogs NodeAudit
      → EvidenceCheckResponse × AuditLogs NodeAudit
  check_evidence message log =
      let decision =
        deny k.policy_id invalid_request (codes "cluster_id and evidence are required") in
      let refusal = refuse_check k [] (evidence_hash k (request_evidence message)) decision log in
      elim message [
        | none ↦ refusal
        | some req ↦ if is_empty (trim_space req.cluster_id) then refusal else elim (req.evidence) [
          | none ↦ refusal
          | some evidence ↦ check_present (trim_space req.cluster_id) req.operation evidence log
        ]
      ]
