-- ===== src/Broker/EnrollmentService/Handled.antt =====
-- internal/broker/enrollment_service.go: the handlers and their audit together.
use openbao_attested_unseal.Prelude.{
  ◌≡◌, refl, ◌⊎◌, inl, inr, ℕ, false, ltb, length, ◌||◌, Option, none, some, Bool-cases,
  Option-cases,
}
use openbao_attested_unseal.Prelude.Result.{Error}
use openbao_attested_unseal.Prelude.Text.{Text, codes, is_empty}
use openbao_attested_unseal.Prelude.Trim.{trim_space}
use openbao_attested_unseal.Tpm.Library.{TpmLibrary}
use openbao_attested_unseal.Nodeevidence.Enrollment.{
  EnrollmentRequest, normalize_enrollment_request,
}
use openbao_attested_unseal.Broker.NodeRows.Enroll.{enroll_node_evidence, revoke_node_evidence}
use openbao_attested_unseal.Broker.EnrollmentService.{
  AuditContext, Audited, EnrollmentCall, EnrollmentService, EnrollmentState, admitted, admit,
  audit_enrollment_decision,
}
use openbao_attested_unseal.Broker.EnrollmentService.Message.{
  tpm_policy_from_proto, of_result, request_from, EnrollMessage, RevokeMessage, ListMessage, Parsed,
  parsed, unparsed, and_then, normalize_enrollment_reason, enrollment_request_from_proto,
  revocation_request_from_proto,
}
use openbao_attested_unseal.Broker.EnrollmentService.Handlers.{
  enrollment_operation_enroll, enrollment_operation_revoke, enroll_admitted, handle_enroll,
  revoke_admitted, revoke_parsed, handle_revoke, enroll_context, revoke_context, enroll_failure,
  revoke_failure,
}
use openbao_attested_unseal.Broker.EnrollmentService.Listing.{handle_list, list_cluster}
use openbao_attested_unseal.Broker.EnrollmentService.Sinks.{audit_enrollment_decision-Logs}
use openbao_attested_unseal.Broker.EnrollmentService.Admitted.{admit-IsAdmin, Admission-cases}
use openbao_attested_unseal.Broker.EnrollmentService.Traced.{
  KeepsOrTraces, enrolls, revokes, after_audit-KeepsOrTraces,
}

and_then-parsed {ℓ κ} :
    {V : Type ℓ} {W : Type κ} (p : Parsed V) (next : V → Parsed W) {w : W}
    → and_then p next ≡ parsed w
    → (v : V) × (p ≡ parsed v) × (next v ≡ parsed w)
and_then-parsed (parsed v) next h = (v, refl, h)
and_then-parsed (unparsed reason) next h = cc

normalize_enrollment_reason-parsed :
    (value reason : Text)
    → normalize_enrollment_reason value ≡ parsed reason
    → is_empty reason ≡ false
unfolding normalize_enrollment_reason
normalize_enrollment_reason-parsed value reason h =
    elim (Bool-cases (is_empty (trim_space value))) [
      | inl f ↦ absurd (cc (rw f at h))
      | inr f ↦ elim (Bool-cases (ltb 1024 (length (trim_space value)))) [
        | inl g ↦ absurd (cc (rw (f, g) at h))
        | inr g ↦ let same : parsed (trim_space value) ≡ parsed reason = rw (f, g) at h in cc
      ]
    ]

Parsed-cases {ℓ} :
    {V : Type ℓ} (p : Parsed V)
    → ((v : V) × (p ≡ parsed v)) ⊎ ((reason : Text) × (p ≡ unparsed reason))
Parsed-cases (parsed v) = inl (v, refl)
Parsed-cases (unparsed reason) = inr (reason, refl)

enrollment_request_from_proto-reason :
    (x : TpmLibrary) (error_text : Error → Text) (req : Option EnrollMessage) (now : ℕ)
    (r : EnrollmentRequest) (reason : Text)
    → enrollment_request_from_proto x error_text req now ≡ parsed (r, reason)
    → is_empty reason ≡ false
unfolding enrollment_request_from_proto
enrollment_request_from_proto-reason x error_text none now r reason h = cc
enrollment_request_from_proto-reason x error_text (some m) now r reason h =
    elim (Option-cases m.tpm_policy) [
      | inl f ↦ absurd (cc (rw f at h))
      | inr (p, f) ↦
          let (given, h1, k1) =
            and_then-parsed (normalize_enrollment_reason m.reason) _ (rw f at h) in
          let (policy, _, k2) = and_then-parsed (tpm_policy_from_proto p) _ k1 in
          let (n, _, k3) =
            and_then-parsed
              (of_result error_text (normalize_enrollment_request x (request_from m policy now))) _
              k2 in
          let last : parsed (n, given) ≡ parsed (r, reason) = k3 in
          let same : given ≡ reason = cc last in
          rw (← same) (normalize_enrollment_reason-parsed m.reason given h1)
    ]

revocation_request_from_proto-reason :
    (req : Option RevokeMessage) (reason : Text)
    → (revocation_request_from_proto req).1 ≡ parsed reason
    → is_empty reason ≡ false
unfolding revocation_request_from_proto
revocation_request_from_proto-reason none reason h = cc
revocation_request_from_proto-reason (some m) reason h =
    elim (Bool-cases (is_empty (trim_space m.cluster_id) || is_empty (trim_space m.node_name))) [
      | inl f ↦ absurd (cc (rw f at h))
      | inr f ↦ normalize_enrollment_reason-parsed m.reason reason (rw f at h)
    ]

module _ (sv : EnrollmentService) (c : EnrollmentCall) where
  enroll_admitted-KeepsOrTraces :
      (actor : Text) (r : EnrollmentRequest) (reason : Text) (context : Option AuditContext)
      (s : EnrollmentState)
      → is_empty reason ≡ false
      → admit sv c r.cluster_id ≡ admitted actor
      → KeepsOrTraces sv c s (enroll_admitted sv c actor r reason context s).1
  unfolding enroll_admitted
  enroll_admitted-KeepsOrTraces actor r reason context s reasoned h =
      after_audit-KeepsOrTraces sv c enrollment_operation_enroll actor r.cluster_id r.node_name
        reason context (admit-IsAdmin sv c r.cluster_id actor h) reasoned
        (enroll_node_evidence sv.tpm sv.rows r) (λ n. enrolls r) (enroll_failure sv c)
        (codes "node evidence enrollment audit failed") s

  revoke_admitted-KeepsOrTraces :
      (actor cluster_id node_name reason : Text) (context : Option AuditContext)
      (s : EnrollmentState)
      → is_empty reason ≡ false
      → admit sv c cluster_id ≡ admitted actor
      → KeepsOrTraces sv c s (revoke_admitted sv c actor cluster_id node_name reason context s).1
  unfolding revoke_admitted
  revoke_admitted-KeepsOrTraces actor cluster_id node_name reason context s reasoned h =
      after_audit-KeepsOrTraces sv c enrollment_operation_revoke actor cluster_id node_name reason
        context (admit-IsAdmin sv c cluster_id actor h) reasoned
        (revoke_node_evidence sv.tpm sv.rows cluster_id node_name c.now)
        (λ n. revokes cluster_id node_name c.now) (revoke_failure sv c)
        (codes "node evidence revocation audit failed") s

  refused-KeepsOrTraces :
      (a : Audited) (s : EnrollmentState)
      → KeepsOrTraces sv c s (audit_enrollment_decision sv c c.first a s).0
  refused-KeepsOrTraces a s = inl (audit_enrollment_decision-Logs sv c c.first a s).same_nodes

  handle_enroll-KeepsOrTraces :
      (req : Option EnrollMessage) (s : EnrollmentState)
      → KeepsOrTraces sv c s (handle_enroll sv c req s).1
  unfolding handle_enroll
  handle_enroll-KeepsOrTraces req s =
      elim (Parsed-cases (enrollment_request_from_proto sv.tpm sv.error_text req c.now)) [
        | inr (reason, f) ↦ rw (f, handle_enroll) (refused-KeepsOrTraces _ s)
        | inl ((r, reason), f) ↦ elim (Admission-cases (admit sv c r.cluster_id)) [
          | inr (actor, code, refusal, g) ↦ rw (f, handle_enroll, g) (refused-KeepsOrTraces _ s)
          | inl (actor, g) ↦
              rw (f, handle_enroll, g)
                (enroll_admitted-KeepsOrTraces actor r reason (enroll_context req) s
                  (enrollment_request_from_proto-reason sv.tpm sv.error_text req c.now r reason f)
                  g)
        ]
      ]

  revoke_parsed-KeepsOrTraces :
      (cluster_id node_name reason : Text) (context : Option AuditContext) (s : EnrollmentState)
      → is_empty reason ≡ false
      → KeepsOrTraces sv c s (revoke_parsed sv c cluster_id node_name reason context s).1
  unfolding revoke_parsed
  revoke_parsed-KeepsOrTraces cluster_id node_name reason context s reasoned =
      elim (Admission-cases (admit sv c cluster_id)) [
        | inr (actor, code, refusal, g) ↦ rw (g, revoke_parsed) (refused-KeepsOrTraces _ s)
        | inl (actor, g) ↦
            rw (g, revoke_parsed)
              (revoke_admitted-KeepsOrTraces actor cluster_id node_name reason context s reasoned g)
      ]

  handle_revoke-KeepsOrTraces :
      (req : Option RevokeMessage) (s : EnrollmentState)
      → KeepsOrTraces sv c s (handle_revoke sv c req s).1
  unfolding handle_revoke
  handle_revoke-KeepsOrTraces req s =
      let ((cluster_id, node_name), given) = revocation_request_from_proto req in
      elim (Parsed-cases (revocation_request_from_proto req).1) [
        | inr (reason, f) ↦ rw (f, handle_revoke) (refused-KeepsOrTraces _ s)
        | inl (reason, f) ↦
            rw (f, handle_revoke)
              (revoke_parsed-KeepsOrTraces _ _ reason (revoke_context req) s
                (revocation_request_from_proto-reason req reason f))
      ]

  list_cluster-nodes :
      (m : ListMessage) (s : EnrollmentState) → (list_cluster sv c m s).1.nodes ≡ s.nodes
  unfolding list_cluster
  list_cluster-nodes m s = elim (Admission-cases (admit sv c (trim_space m.cluster_id))) [
    | inr (actor, code, refusal, g) ↦
        rw (g, list_cluster) (audit_enrollment_decision-Logs sv c c.first _ s).same_nodes
    | inl (actor, g) ↦
        rw (g, list_cluster) (audit_enrollment_decision-Logs sv c c.first _ s).same_nodes
  ]

  handle_list-nodes :
      (req : Option ListMessage) (s : EnrollmentState) → (handle_list sv c req s).1.nodes ≡ s.nodes
  unfolding handle_list
  handle_list-nodes none s = (audit_enrollment_decision-Logs sv c c.first _ s).same_nodes
  handle_list-nodes (some m) s = elim (Bool-cases (is_empty (trim_space m.cluster_id))) [
    | inl f ↦ rw f (audit_enrollment_decision-Logs sv c c.first _ s).same_nodes
    | inr f ↦ rw f (list_cluster-nodes m s)
  ]

  -- The calls of the service that have a state.
  pub data Handled (s : EnrollmentState) : EnrollmentState → Type 0 where
    enroll : (req : Option EnrollMessage) → Handled s (handle_enroll sv c req s).1
    revoke : (req : Option RevokeMessage) → Handled s (handle_revoke sv c req s).1
    list : (req : Option ListMessage) → Handled s (handle_list sv c req s).1

  -- Every call of EnrollNodeEvidence, RevokeNodeEvidence or ListNodeEvidenceEnrollments, also one whose
  -- audit or transaction fails, either keeps the enrollments, their publishers and the evidence as they
  -- are, or runs the transaction of its operation for a caller who presents the certificate of an
  -- administrator of that cluster, which the service is configured for; and the next event of every
  -- audit log that is configured, of which there is one at least, is then the decision to allow that
  -- operation on that node, under the hash of that certificate and with a reason that is not empty.
  pub Handled-KeepsOrTraces : {s s' : EnrollmentState} → Handled s s' → KeepsOrTraces sv c s s'
  Handled-KeepsOrTraces {s} (enroll req) = handle_enroll-KeepsOrTraces req s
  Handled-KeepsOrTraces {s} (revoke req) = handle_revoke-KeepsOrTraces req s
  Handled-KeepsOrTraces {s} (list req) = inl (handle_list-nodes req s)
