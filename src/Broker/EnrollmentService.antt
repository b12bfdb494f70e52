-- ===== src/Broker/EnrollmentService.antt =====
-- internal/broker/enrollment_service.go: the service through which operators enroll nodes, with the
-- authorization of its caller and its audit, over the tables of nodes of sqlite.go. A nil request is
-- `none`; an event holds the decision that its texts are made of.
pub mod Message
pub mod Handlers
pub mod Listing
pub mod Sinks
pub mod Admitted
pub mod Traced
pub mod Handled
pub mod PolicyMessage
use openbao_attested_unseal.Prelude.{
  ℕ, Bool, false, not, ◌&&◌, ◌||◌, Option, none, some, List, [], ◌∷◌, ◌++◌, if◌then◌else◌,
}
use openbao_attested_unseal.Prelude.Result.{Error, Result, ok, err, other}
use openbao_attested_unseal.Prelude.Text.{Text, codes, text_eq, is_empty}
use openbao_attested_unseal.Prelude.Trim.{trim_space}
use openbao_attested_unseal.Tpm.Library.{TpmLibrary, sha256}
use openbao_attested_unseal.Prelude.Hex.{encode_hex}
use openbao_attested_unseal.Broker.Policy.{
  PolicyDecision, ErrorCode, unauthenticated, permission_denied, internal,
}
use openbao_attested_unseal.Broker.Subjects.{has_text}
use openbao_attested_unseal.Broker.Audit.{WriteOutcome, AuditAttempt, complete, failed}
use openbao_attested_unseal.Broker.NodeRows.{NodeText, NodeTables}

-- config.go: ControlPlaneRoleNodeEvidenceAdmin and ControlPlaneIdentity
abbrev pub role_node_evidence_admin : Text
role_node_evidence_admin = codes "node-evidence-admin"

pub record ControlPlaneIdentity : Type 0 where
  pub roles : List Text
  pub cluster_ids : List Text

-- AuditContext
pub record AuditContext : Type 0 where
  pub correlation_id : Text
  pub request_id : Text

-- AuditEvent, as auditEnrollmentDecision fills it
pub record EnrollmentEvent : Type 0 where
  pub audit_id : Text
  pub time : Text
  pub subject : Text
  pub actor : Text
  pub target : Text
  pub operation : Text
  pub cluster_id : Text
  pub decision : PolicyDecision
  pub remote_address : Text
  pub correlation_id : Text
  pub request_id : Text

-- What one call takes from outside: the raw certificate of the peer and its address, the clock, and the
-- attempts to audit, of which a handler makes two at most.
pub record EnrollmentCall : Type 0 where
  pub certificate : Option Text
  pub remote_address : Text
  pub now : ℕ
  pub first : AuditAttempt
  pub second : AuditAttempt

-- EnrollmentService; `error_text` is the text of an error.
pub record EnrollmentService : Type 0 where
  pub tpm : TpmLibrary
  pub rows : NodeText
  pub error_text : Error → Text
  pub has_store : Bool
  pub has_audit_store : Bool
  pub has_audit_file : Bool
  pub identities : List (Text × ControlPlaneIdentity)
  pub cluster_id : Text
  pub policy_id : Text

-- The tables, and the events in the audit table and in the audit file.
pub record EnrollmentState : Type 0 where
  pub nodes : NodeTables
  pub stored : List EnrollmentEvent
  pub written : List EnrollmentEvent

-- The fields of an event that come from its context.
abbrev pub correlation_of : Option AuditContext → Text
correlation_of none = []
correlation_of (some c) = trim_space c.correlation_id

abbrev pub request_id_of : Option AuditContext → Text
request_id_of none = []
request_id_of (some c) = trim_space c.request_id

-- What is audited: the arguments of auditEnrollmentDecision.
pub record Audited : Type 0 where
  pub operation : Text
  pub actor : Text
  pub cluster_id : Text
  pub node_name : Text
  pub context : Option AuditContext
  pub decision : PolicyDecision

abbrev pub actor_name : Text → Text
actor_name actor = if is_empty actor then codes "unauthenticated" else actor

module _ (sv : EnrollmentService) (c : EnrollmentCall) where
  -- The event of auditEnrollmentDecision.
  abbrev pub enrollment_event : Audited → Text → ℕ → EnrollmentEvent
  enrollment_event a id now = record {
    audit_id = id;
    time = sv.rows.format_time now;
    subject = actor_name a.actor;
    actor = actor_name a.actor;
    target = a.node_name;
    operation = a.operation;
    cluster_id = a.cluster_id;
    decision = a.decision;
    remote_address = c.remote_address;
    correlation_id = correlation_of a.context;
    request_id = request_id_of a.context;
  }

  -- s.audit.Write
  unfoldable pub write_event :
      WriteOutcome → EnrollmentEvent → EnrollmentState → EnrollmentState × Result (Unit {0})
  write_event outcome e s =
      let longer : EnrollmentState = record s { written = s.written ++ e ∷ [] } in
      if not sv.has_audit_file then (s, ok tt) else elim outcome [
        | complete ↦ (longer, ok tt)
        | failed reached x ↦ (if reached then longer else s, err x)
      ]

  -- s.auditStore.InsertAuditEvent, and the file after it
  unfoldable pub insert_event :
      AuditAttempt → EnrollmentEvent → EnrollmentState → EnrollmentState × Result (Unit {0})
  insert_event attempt e s =
      if not sv.has_audit_store then write_event attempt.write e s else elim (attempt.insert) [
        | err x ↦ (s, err x)
        | ok _ ↦ write_event attempt.write e (record s { stored = s.stored ++ e ∷ [] })
      ]

  -- auditEnrollmentDecision
  unfoldable pub audit_enrollment_decision :
      AuditAttempt → Audited → EnrollmentState → EnrollmentState × Result (Unit {0})
  audit_enrollment_decision attempt a s =
      if not (sv.has_audit_store || sv.has_audit_file)
      then (s, err other)
      else elim (attempt.audit_id) [
        | err x ↦ (s, err x)
        | ok id ↦ insert_event attempt (enrollment_event a id attempt.time) s
      ]

unfoldable pub find_identity :
    Text → List (Text × ControlPlaneIdentity) → Option ControlPlaneIdentity
find_identity hash [] = none
find_identity hash ((h, identity) ∷ identities) =
    if text_eq h hash then some identity else find_identity hash identities

-- Who may administer: the hash of the caller's certificate; or the hash, where there is a certificate,
-- and the refusal.
pub data Admission : Type 0 where
  admitted : Text → Admission
  turned_away : Text → ErrorCode → Text → Admission

-- nodeEvidenceClientCertificateHash, on a certificate
unfoldable pub certificate_hash : TpmLibrary → Text → Text
certificate_hash x raw = codes "sha256:" ++ encode_hex (x.sum sha256 raw)

-- EnrollmentService.authorize on an identity
unfoldable pub authorize_identity : Text → Option ControlPlaneIdentity → Text → Admission
authorize_identity hash none cluster_id =
    turned_away hash permission_denied
      (codes "control-plane identity lacks the node-evidence-admin role")
authorize_identity hash (some identity) cluster_id =
    if not (has_text role_node_evidence_admin identity.roles)
    then turned_away hash permission_denied
        (codes "control-plane identity lacks the node-evidence-admin role")
    else if not (has_text (trim_space cluster_id) identity.cluster_ids)
    then turned_away hash permission_denied
        (codes "control-plane identity is not authorized for this cluster")
    else admitted hash

module _ (sv : EnrollmentService) where
  -- EnrollmentService.authorize
  unfoldable pub authorize_admin : EnrollmentCall → Text → Admission
  authorize_admin c cluster_id = elim (c.certificate) [
    | none ↦
        turned_away [] unauthenticated
          (codes "control-plane operation requires an authenticated client certificate")
    | some raw ↦
        let hash = certificate_hash sv.tpm raw in
        authorize_identity hash (find_identity hash sv.identities) cluster_id
  ]

  -- acceptsCluster
  unfoldable pub accepts_enrollment_cluster : Text → Bool
  accepts_enrollment_cluster cluster_id =
      is_empty sv.cluster_id || text_eq sv.cluster_id (trim_space cluster_id)

  -- What each handler tests of its caller before it goes on.
  unfoldable pub admit : EnrollmentCall → Text → Admission
  admit c cluster_id = elim (authorize_admin c cluster_id) [
    | turned_away actor code reason ↦ turned_away actor code reason
    | admitted actor ↦
        if not (accepts_enrollment_cluster cluster_id)
        then turned_away actor permission_denied (codes "node evidence cluster is not configured")
        else if not sv.has_store
        then turned_away actor internal (codes "node evidence enrollment storage is unavailable")
        else admitted actor
  ]
