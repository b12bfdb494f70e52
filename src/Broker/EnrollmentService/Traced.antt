-- ===== src/Broker/EnrollmentService/Traced.antt =====
-- internal/broker/enrollment_service.go: an announced change of the enrollments, its caller and its event.
use openbao_attested_unseal.Prelude.{◌≡◌, refl, ◌⊎◌, inl, inr, ℕ, false, Option, [], ◌∷◌, ◌++◌}
use openbao_attested_unseal.Prelude.Result.{Error, Result, ok, err}
use openbao_attested_unseal.Prelude.Text.{Text, is_empty}
use openbao_attested_unseal.Tpm.Library.{TpmLibrary}
use openbao_attested_unseal.Broker.Policy.{PolicyDecision, allow}
use openbao_attested_unseal.Nodeevidence.Enrollment.{EnrollmentRequest, Enrollment}
use openbao_attested_unseal.Broker.NodeRows.{NodeText, NodeTables}
use openbao_attested_unseal.Broker.NodeRows.Enroll.{enroll_node_evidence, revoke_node_evidence}
use openbao_attested_unseal.Broker.EnrollmentService.{
  AuditContext, Audited, EnrollmentEvent, EnrollmentCall, EnrollmentService, EnrollmentState,
  audit_enrollment_decision, enrollment_event,
}
use openbao_attested_unseal.Broker.EnrollmentService.Handlers.{
  EnrollmentResponse, enrollment_operation_enroll, enrollment_operation_revoke,
  decision_with_reason, answer_change, after_audit,
}
use openbao_attested_unseal.Broker.EnrollmentService.Sinks.{
  Continues, Continues-refl, Continues-trans, Logs, IsLogged, audit_enrollment_decision-Logs,
  audit_enrollment_decision-IsLogged,
}
use openbao_attested_unseal.Broker.EnrollmentService.Admitted.{IsAdmin}

-- A transaction on the enrollment of a node, under the name of its operation.
pub data Change (x : TpmLibrary) (t : NodeText) (s : NodeTables)
    : Text → Text → Text → NodeTables → Type 0 where
  enrolls :
      (r : EnrollmentRequest)
      → Change x t s enrollment_operation_enroll r.cluster_id r.node_name
          (enroll_node_evidence x t r s).0
  revokes :
      (cluster_id node_name : Text) (now : ℕ)
      → Change x t s enrollment_operation_revoke cluster_id node_name
          (revoke_node_evidence x t cluster_id node_name now s).0

module _ (sv : EnrollmentService) (c : EnrollmentCall) where
  -- What a call leaves of an announced change: who made it, for which reason, and its event in the logs.
  pub record IsTraced (s s' : EnrollmentState) : Type 0 where
    pub operation : Text
    pub actor : Text
    pub cluster_id : Text
    pub node_name : Text
    pub context : Option AuditContext
    pub reason : Text
    pub audit_id : Text
    pub change : Change sv.tpm sv.rows s.nodes operation cluster_id node_name s'.nodes
    pub admin : IsAdmin sv c cluster_id actor
    pub reasoned : is_empty reason ≡ false
    pub logged :
        IsLogged sv c
          (enrollment_event sv c
            (record {
              operation = operation;
              actor = actor;
              cluster_id = cluster_id;
              node_name = node_name;
              context = context;
              decision = decision_with_reason (allow sv.policy_id) reason;
            })
            audit_id
            c.first.time)
          s
          s'

  abbrev pub KeepsOrTraces : EnrollmentState → EnrollmentState → Type 0
  KeepsOrTraces s s' = (s'.nodes ≡ s.nodes) ⊎ IsTraced s s'

  IsLogged-Logs :
      (e : EnrollmentEvent) (s s1 s2 : EnrollmentState)
      → IsLogged sv c e s s1
      → Continues s1.stored s2.stored
      → Continues s1.written s2.written
      → IsLogged sv c e s s2
  IsLogged-Logs e s s1 s2 l stored written = record {
    configured = l.configured;
    in_table = λ g. Continues-trans (s.stored ++ e ∷ []) s1.stored s2.stored (l.in_table g) stored;
    in_file =
        λ g. Continues-trans (s.written ++ e ∷ []) s1.written s2.written (l.in_file g) written;
  }

  answer_change-lem :
      (a : Audited) (failure : Error → PolicyDecision) (s : EnrollmentState)
      (q : NodeTables × Result Enrollment)
      → ((answer_change sv c a failure s q).1.nodes ≡ q.0)
        × Continues s.stored (answer_change sv c a failure s q).1.stored
        × Continues s.written (answer_change sv c a failure s q).1.written
  answer_change-lem a failure s (nodes, ok e) =
      (refl, Continues-refl s.stored, Continues-refl s.written)
  answer_change-lem a failure s (nodes, err e) =
      let logs =
        audit_enrollment_decision-Logs sv c c.second (record a { decision = failure e })
          (record s { nodes = nodes }) in
      (logs.same_nodes, logs.table, logs.file)

  module _ (operation actor cluster_id node_name reason : Text)
      (context : Option AuditContext) where
    abbrev audited : PolicyDecision → Audited
    audited decision = record {
      operation = operation;
      actor = actor;
      cluster_id = cluster_id;
      node_name = node_name;
      context = context;
      decision = decision;
    }

    abbrev announced : Audited
    announced = audited (decision_with_reason (allow sv.policy_id) reason)

    module _ (admin : IsAdmin sv c cluster_id actor) (reasoned : is_empty reason ≡ false)
        (transaction : NodeTables → NodeTables × Result Enrollment)
        (changes : (n : NodeTables)
          → Change sv.tpm sv.rows n operation cluster_id node_name (transaction n).0)
        (failure : Error → PolicyDecision) (failed : Text) where
      abbrev proceed : EnrollmentState → EnrollmentResponse × EnrollmentState
      proceed s = answer_change sv c (audited (allow sv.policy_id)) failure s (transaction s.nodes)

      proceed-IsTraced :
          (s s1 : EnrollmentState) (id : Text)
          → s1.nodes ≡ s.nodes
          → IsLogged sv c (enrollment_event sv c announced id c.first.time) s s1
          → IsTraced s (proceed s1).1
      proceed-IsTraced s s1 id same logged =
          let (nodes, stored, written) =
            answer_change-lem (audited (allow sv.policy_id)) failure s1 (transaction s1.nodes) in
          record {
            operation = operation;
            actor = actor;
            cluster_id = cluster_id;
            node_name = node_name;
            context = context;
            reason = reason;
            audit_id = id;
            change = rw nodes (rw (← same) (changes s1.nodes));
            admin = admin;
            reasoned = reasoned;
            logged =
                IsLogged-Logs (enrollment_event sv c announced id c.first.time) s s1 (proceed s1).1
                  logged stored written;
          }

      audited-KeepsOrTraces :
          (s : EnrollmentState) (p : EnrollmentState × Result (Unit {0}))
          → Logs s p.0
          → (p.1 ≡ ok tt
              → (id : Text) × (c.first.audit_id ≡ ok id)
                × IsLogged sv c (enrollment_event sv c announced id c.first.time) s p.0)
          → KeepsOrTraces s (after_audit sv c failed p proceed).1
      audited-KeepsOrTraces s (s1, err x) logs logged = inl logs.same_nodes
      audited-KeepsOrTraces s (s1, ok _) logs logged =
          let (id, _, l) = logged refl in inr (proceed-IsTraced s s1 id logs.same_nodes l)

      pub after_audit-KeepsOrTraces :
          (s : EnrollmentState)
          → KeepsOrTraces s
              (after_audit sv c failed
                (audit_enrollment_decision sv c c.first announced s)
                proceed).1
      after_audit-KeepsOrTraces s =
          audited-KeepsOrTraces s (audit_enrollment_decision sv c c.first announced s)
            (audit_enrollment_decision-Logs sv c c.first announced s)
            (audit_enrollment_decision-IsLogged sv c c.first announced s)
