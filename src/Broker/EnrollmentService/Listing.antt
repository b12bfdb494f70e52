-- ===== src/Broker/EnrollmentService/Listing.antt =====
-- internal/broker/enrollment_service.go: the handlers ListNodeEvidenceEnrollments and Status.
use openbao_attested_unseal.Prelude.{
  Bool, true, false, Option, none, some, List, [], ◌∷◌, if◌then◌else◌,
}
use openbao_attested_unseal.Prelude.Result.{Result, ok, err, enrollment_not_found}
use openbao_attested_unseal.Prelude.Text.{Text, codes, is_empty}
use openbao_attested_unseal.Prelude.Trim.{trim_space}
use openbao_attested_unseal.Broker.Policy.{PolicyDecision, allow, deny, invalid_request, internal}
use openbao_attested_unseal.Nodeevidence.Enrollment.{Enrollment}
use openbao_attested_unseal.Broker.NodeRows.Query.{list_enrollments}
use openbao_attested_unseal.Broker.EnrollmentService.{
  Audited, EnrollmentCall, EnrollmentService, EnrollmentState, admitted, turned_away, admit,
}
use openbao_attested_unseal.Broker.EnrollmentService.Message.{
  ListMessage, EnrollmentMessage, enrollment_to_proto,
}
use openbao_attested_unseal.Broker.EnrollmentService.Handlers.{audit_anyway}

abbrev pub enrollment_operation_list : Text
enrollment_operation_list = codes "NODE_EVIDENCE_ENROLLMENT_LIST"

-- NodeEvidenceEnrollmentListResponse
pub record ListResponse : Type 0 where
  pub enrollments : List EnrollmentMessage
  pub decision : PolicyDecision

-- EnrollmentStatusResponse
pub record EnrollmentStatus : Type 0 where
  pub implemented : Bool
  pub message : Text

abbrev pub to_protos : List Enrollment → List EnrollmentMessage
to_protos [] = []
to_protos (e ∷ es) = enrollment_to_proto e ∷ to_protos es

module _ (sv : EnrollmentService) (c : EnrollmentCall) where
  abbrev pub answer_list :
      List EnrollmentMessage → Audited → EnrollmentState → ListResponse × EnrollmentState
  answer_list enrollments a s =
      (record { enrollments = enrollments; decision = a.decision }, audit_anyway sv c c.first a s)

  -- What ListNodeEvidenceEnrollments answers with, and the decision.
  unfoldable pub listing : Result (List Enrollment) → List EnrollmentMessage × PolicyDecision
  listing (ok es) = (to_protos es, allow sv.policy_id)
  listing (err enrollment_not_found) = ([], allow sv.policy_id)
  listing (err _) =
      ([], deny sv.policy_id internal (codes "node evidence enrollment lookup failed"))

  unfoldable pub list_audited : Text → Text → Text → ListMessage → PolicyDecision → Audited
  list_audited actor cluster_id node_name m decision = record {
    operation = enrollment_operation_list;
    actor = actor;
    cluster_id = cluster_id;
    node_name = node_name;
    context = m.audit;
    decision = decision;
  }

  -- ListNodeEvidenceEnrollments, on a request that names a cluster
  unfoldable pub list_cluster : ListMessage → EnrollmentState → ListResponse × EnrollmentState
  list_cluster m s =
      let cluster_id = trim_space m.cluster_id in
      let node_name = trim_space m.node_name in
      elim (admit sv c cluster_id) [
        | turned_away actor code refusal ↦
            let decision = deny sv.policy_id code refusal in
            answer_list [] (list_audited actor cluster_id node_name m decision) s
        | admitted actor ↦
            let (found, decision) =
              listing
                (list_enrollments sv.tpm sv.rows cluster_id node_name m.include_revoked s.nodes) in
            answer_list found (list_audited actor cluster_id node_name m decision) s
      ]

  -- EnrollmentService.ListNodeEvidenceEnrollments
  unfoldable pub handle_list : Option ListMessage → EnrollmentState → ListResponse × EnrollmentState
  handle_list none s =
      answer_list []
        (record {
          operation = enrollment_operation_list;
          actor = [];
          cluster_id = [];
          node_name = [];
          context = none;
          decision = deny sv.policy_id invalid_request (codes "cluster_id is required");
        })
        s
  handle_list (some m) s =
      if is_empty (trim_space m.cluster_id)
      then answer_list []
          (list_audited [] [] [] m
            (deny sv.policy_id invalid_request (codes "cluster_id is required")))
          s
      else list_cluster m s

-- EnrollmentService.Status
unfoldable pub enrollment_status : EnrollmentService → EnrollmentStatus
enrollment_status sv =
    if sv.has_store
    then record {
      implemented = true;
      message = codes "authenticated node evidence enrollment is available";
    }
    else record {
      implemented = false;
      message = codes "node evidence enrollment storage is unavailable";
    }
