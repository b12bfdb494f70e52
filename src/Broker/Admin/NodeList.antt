-- ===== src/Broker/Admin/NodeList.antt =====
-- internal/broker/admin.go: the handlers Status and ListNodeEvidence.
use openbao_attested_unseal.Prelude.{
  Bool, true, false, ℕ, not, Option, none, some, List, [], ◌∷◌, if◌then◌else◌,
}
use openbao_attested_unseal.Prelude.Result.{Error, ok, err, node_evidence_not_found}
use openbao_attested_unseal.Prelude.Text.{Text, codes, is_empty}
use openbao_attested_unseal.Broker.Policy.{
  PolicyDecision, NodeEvidence, allow, deny, invalid_request, attestation_failed, internal,
}
use openbao_attested_unseal.Broker.NodeRows.Query.{list_evidence}
use openbao_attested_unseal.Broker.Admin.{AdminService, AdminCall, AdminState, audit_node_evidence}
use openbao_attested_unseal.Broker.Admin.Publish.{
  NodeEvidenceRecord, node_evidence_to_proto, prune_node_evidence,
}

pub record AdminStatusResponse : Type 0 where
  pub implemented : Bool
  pub message : Text

-- Status
unfoldable pub admin_status : AdminService → AdminStatusResponse
admin_status a =
    if not a.has_node_evidence
    then record {
      implemented = false;
      message = codes "admin node evidence APIs require Kubernetes node evidence storage";
    }
    else record { implemented = true; message = codes "admin node evidence APIs are available" }

pub record NodeListRequest : Type 0 where
  pub cluster_id : Text
  pub node_name : Text

pub record NodeListResponse : Type 0 where
  pub evidence : List NodeEvidenceRecord
  pub decision : PolicyDecision

abbrev pub operation_list : Text
operation_list = codes "NODE_EVIDENCE_LIST"

unfoldable pub records_to_proto : List NodeEvidence → ℕ → List NodeEvidenceRecord
records_to_proto [] now = []
records_to_proto (e ∷ es) now = node_evidence_to_proto e now ∷ records_to_proto es now

-- The answer of ListNodeEvidence to an error of the store.
unfoldable pub list_refusal : Text → Error → PolicyDecision
list_refusal policy_id node_evidence_not_found =
    deny policy_id attestation_failed (codes "node evidence is missing")
list_refusal policy_id _ = deny policy_id internal (codes "node evidence lookup failed")

abbrev refuse_list :
    AdminCall → Text → Text → PolicyDecision → AdminState → NodeListResponse × AdminState
refuse_list c cluster_id node_name decision s = (
  record { evidence = []; decision = decision },
  audit_node_evidence c operation_list cluster_id node_name [] decision s,
)

-- ListNodeEvidence, on a request that names a cluster
unfoldable pub list_named :
    AdminService → AdminCall → NodeListRequest → AdminState → NodeListResponse × AdminState
list_named a c req s =
    let refuse = refuse_list c req.cluster_id req.node_name in
    elim (prune_node_evidence a c req.cluster_id s.nodes) [
      | err _ ↦ refuse (deny a.policy_id internal (codes "node evidence cleanup failed")) s
      | ok nodes ↦
          let s' = record s { nodes = nodes } in
          elim (list_evidence a.library.rows req.cluster_id req.node_name nodes) [
            | err x ↦ refuse (list_refusal a.policy_id x) s'
            | ok records ↦
                let decision = allow a.policy_id in
                (
                  record { evidence = records_to_proto records c.answer_now; decision = decision },
                  audit_node_evidence c operation_list req.cluster_id req.node_name [] decision s',
                )
          ]
    ]

-- ListNodeEvidence
unfoldable pub list_node_evidence :
    AdminService → AdminCall → Option NodeListRequest → AdminState → NodeListResponse × AdminState
list_node_evidence a c message s =
    if not a.has_node_evidence
    then refuse_list c [] []
        (deny a.policy_id internal (codes "node evidence storage is not configured")) s
    else elim message [
      | none ↦
          refuse_list c [] [] (deny a.policy_id invalid_request (codes "cluster_id is required")) s
      | some req ↦
          if is_empty req.cluster_id
          then refuse_list c [] []
              (deny a.policy_id invalid_request (codes "cluster_id is required")) s
          else list_named a c req s
    ]
