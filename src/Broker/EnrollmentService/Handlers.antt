-- ===== src/Broker/EnrollmentService/Handlers.antt =====
-- internal/broker/enrollment_service.go: the handlers EnrollNodeEvidence and RevokeNodeEvidence.
use openbao_attested_unseal.Prelude.{Option, none, some, []}
use openbao_attested_unseal.Prelude.Result.{
  Error, Result, ok, err, enrollment_not_found, enrollment_revoked,
}
use openbao_attested_unseal.Prelude.Text.{Text, codes}
use openbao_attested_unseal.Broker.Policy.{PolicyDecision, allow, deny, invalid_request, internal}
use openbao_attested_unseal.Nodeevidence.Enrollment.{EnrollmentRequest, Enrollment}
use openbao_attested_unseal.Broker.NodeRows.{NodeTables}
use openbao_attested_unseal.Broker.NodeRows.Enroll.{enroll_node_evidence, revoke_node_evidence}
use openbao_attested_unseal.Broker.Audit.{AuditAttempt}
use openbao_attested_unseal.Broker.EnrollmentService.{
  AuditContext, Audited, EnrollmentCall, EnrollmentService, EnrollmentState, admitted, turned_away,
  admit, audit_enrollment_decision,
}
use openbao_attested_unseal.Broker.EnrollmentService.Message.{
  EnrollMessage, RevokeMessage, EnrollmentMessage, parsed, unparsed, enrollment_request_from_proto,
  revocation_request_from_proto, enrollment_to_proto,
}

abbrev pub enrollment_operation_enroll : Text
enrollment_operation_enroll = codes "NODE_EVIDENCE_ENROLL"

abbrev pub enrollment_operation_revoke : Text
enrollment_operation_revoke = codes "NODE_EVIDENCE_REVOKE"

-- NodeEvidenceEnrollmentResponse and NodeEvidenceRevocationResponse
pub record EnrollmentResponse : Type 0 where
  pub enrollment : Option EnrollmentMessage
  pub decision : PolicyDecision

-- decisionWithReason
abbrev pub decision_with_reason : PolicyDecision → Text → PolicyDecision
decision_with_reason d reason = record d { reason = reason }

-- reqAudit
abbrev pub enroll_context : Option EnrollMessage → Option AuditContext
enroll_context none = none
enroll_context (some m) = m.audit

abbrev pub revoke_context : Option RevokeMessage → Option AuditContext
revoke_context none = none
revoke_context (some m) = m.audit

module _ (sv : EnrollmentService) (c : EnrollmentCall) where
  -- A decision is audited, whether or not that succeeds.
  abbrev pub audit_anyway : AuditAttempt → Audited → EnrollmentState → EnrollmentState
  audit_anyway attempt a s = (audit_enrollment_decision sv c attempt a s).0

  abbrev pub refuse_enrollment :
      AuditAttempt → Audited → EnrollmentState → EnrollmentResponse × EnrollmentState
  refuse_enrollment attempt a s =
      (record { enrollment = none; decision = a.decision }, audit_anyway attempt a s)

  -- What follows the transaction of a handler that changes the tables: `failure` is the decision where it
  -- failed.
  abbrev pub answer_change :
      Audited
      → (Error → PolicyDecision)
      → EnrollmentState
      → NodeTables × Result Enrollment
      → EnrollmentResponse × EnrollmentState
  answer_change a failure s (nodes, err e) =
      refuse_enrollment c.second (record a { decision = failure e }) (record s { nodes = nodes })
  answer_change a failure s (nodes, ok e) = (
    record { enrollment = some (enrollment_to_proto e); decision = a.decision },
    record s { nodes = nodes },
  )

  -- A change of the tables whose decision has to be audited before it is made.
  abbrev pub after_audit :
      Text
      → EnrollmentState × Result (Unit {0})
      → (EnrollmentState → EnrollmentResponse × EnrollmentState)
      → EnrollmentResponse × EnrollmentState
  after_audit failed (s, err _) change =
      (record { enrollment = none; decision = deny sv.policy_id internal failed }, s)
  after_audit failed (s, ok _) change = change s

  abbrev pub enroll_failure : Error → PolicyDecision
  enroll_failure _ = deny sv.policy_id internal (codes "node evidence enrollment failed")

  -- EnrollNodeEvidence, for a caller who is admitted
  unfoldable pub enroll_admitted :
      Text
      → EnrollmentRequest
      → Text
      → Option AuditContext
      → EnrollmentState
      → EnrollmentResponse × EnrollmentState
  enroll_admitted actor r reason context s =
      let a : Audited = record {
        operation = enrollment_operation_enroll;
        actor = actor;
        cluster_id = r.cluster_id;
        node_name = r.node_name;
        context = context;
        decision = allow sv.policy_id;
      } in
      let announced : Audited = record a { decision = decision_with_reason a.decision reason } in
      after_audit (codes "node evidence enrollment audit failed")
        (audit_enrollment_decision sv c c.first announced s)
        (λ s'. answer_change a enroll_failure s' (enroll_node_evidence sv.tpm sv.rows r s'.nodes))

  -- EnrollmentService.EnrollNodeEvidence
  unfoldable pub handle_enroll :
      Option EnrollMessage → EnrollmentState → EnrollmentResponse × EnrollmentState
  handle_enroll req s = elim (enrollment_request_from_proto sv.tpm sv.error_text req c.now) [
    | unparsed reason ↦
        refuse_enrollment c.first
          (record {
            operation = enrollment_operation_enroll;
            actor = [];
            cluster_id = [];
            node_name = [];
            context = enroll_context req;
            decision = deny sv.policy_id invalid_request reason;
          })
          s
    | parsed (r, reason) ↦ elim (admit sv c r.cluster_id) [
      | turned_away actor code refusal ↦
          refuse_enrollment c.first
            (record {
              operation = enrollment_operation_enroll;
              actor = actor;
              cluster_id = r.cluster_id;
              node_name = r.node_name;
              context = enroll_context req;
              decision = deny sv.policy_id code refusal;
            })
            s
      | admitted actor ↦ enroll_admitted actor r reason (enroll_context req) s
    ]
  ]

  -- The answer of RevokeNodeEvidence to an error of the store.
  unfoldable pub revoke_failure : Error → PolicyDecision
  revoke_failure enrollment_not_found =
      deny sv.policy_id invalid_request (sv.error_text enrollment_not_found)
  revoke_failure enrollment_revoked =
      deny sv.policy_id invalid_request (sv.error_text enrollment_revoked)
  revoke_failure _ = deny sv.policy_id internal (codes "node evidence revocation failed")

  -- RevokeNodeEvidence, for a caller who is admitted
  unfoldable pub revoke_admitted :
      Text
      → Text
      → Text
      → Text
      → Option AuditContext
      → EnrollmentState
      → EnrollmentResponse × EnrollmentState
  revoke_admitted actor cluster_id node_name reason context s =
      let a : Audited = record {
        operation = enrollment_operation_revoke;
        actor = actor;
        cluster_id = cluster_id;
        node_name = node_name;
        context = context;
        decision = allow sv.policy_id;
      } in
      let announced : Audited = record a { decision = decision_with_reason a.decision reason } in
      after_audit (codes "node evidence revocation audit failed")
        (audit_enrollment_decision sv c c.first announced s)
        (λ s'.
          answer_change a revoke_failure s'
            (revoke_node_evidence sv.tpm sv.rows cluster_id node_name c.now s'.nodes))

  -- RevokeNodeEvidence, on a request that is parsed
  unfoldable pub revoke_parsed :
      Text
      → Text
      → Text
      → Option AuditContext
      → EnrollmentState
      → EnrollmentResponse × EnrollmentState
  revoke_parsed cluster_id node_name reason context s = elim (admit sv c cluster_id) [
    | turned_away actor code refusal ↦
        refuse_enrollment c.first
          (record {
            operation = enrollment_operation_revoke;
            actor = actor;
            cluster_id = cluster_id;
            node_name = node_name;
            context = context;
            decision = deny sv.policy_id code refusal;
          })
          s
    | admitted actor ↦ revoke_admitted actor cluster_id node_name reason context s
  ]

  -- EnrollmentService.RevokeNodeEvidence
  unfoldable pub handle_revoke :
      Option RevokeMessage → EnrollmentState → EnrollmentResponse × EnrollmentState
  handle_revoke req s =
      let ((cluster_id, node_name), given) = revocation_request_from_proto req in
      elim given [
        | unparsed reason ↦
            refuse_enrollment c.first
              (record {
                operation = enrollment_operation_revoke;
                actor = [];
                cluster_id = cluster_id;
                node_name = node_name;
                context = revoke_context req;
                decision = deny sv.policy_id invalid_request reason;
              })
              s
        | parsed reason ↦ revoke_parsed cluster_id node_name reason (revoke_context req) s
      ]
