-- ===== src/Broker/Admin/CheckAgrees.antt =====
-- internal/broker/admin.go and policy.go: a check of CheckEvidence and the policy that uses the key.
use openbao_attested_unseal.Prelude.{
  ℕ, ◌≡◌, ◌≢◌, refl, sym, ◌∙◌, ◌⊎◌, inl, inr, true, false, some, [], Bool-cases,
}
use openbao_attested_unseal.Prelude.Result.{ok}
use openbao_attested_unseal.Prelude.Text.{Text, is_empty}
use openbao_attested_unseal.Prelude.Trim.{trim_space}
use openbao_attested_unseal.Broker.Policy.{
  PolicyEngine, PolicyRequest, Store, allow, allowed, evaluate_node_evidence, evaluate_subject,
  evaluate,
}
use openbao_attested_unseal.Broker.Policy.Decide.{
  HasNodeEvidence, is_empty-false, node_evidence_complete, evaluate_subject_sound,
}
use openbao_attested_unseal.Broker.Subjects.{Subject}
use openbao_attested_unseal.Broker.Message.{EvidenceEnvelope, VerifiedEvidence, no_key_ref}
use openbao_attested_unseal.Broker.Audit.{AuditLogs}
use openbao_attested_unseal.Broker.Admin.{NodeAudit}
use openbao_attested_unseal.Broker.Admin.Check.{
  EvidenceChecker, EvidenceCheckRequest, verified_as, fresh_reader, checked_operation, check_engine,
  check_request, check_verified, check_present, check_evidence,
}

-- A request of a handler that uses a key, for what was checked.
pub record IsOfCheck (k : EvidenceChecker) (cluster_id : Text) (v : VerifiedEvidence)
    (e : PolicyEngine) (req : PolicyRequest) : Type 0 where
  pub same_reader : e.node_evidence ≡ fresh_reader k.node_evidence
  pub same_policy : e.policy_id ≡ k.policy_id
  pub same_time : e.evidence_time ≡ k.evidence_now
  pub same_cluster : req.cluster_id ≡ cluster_id
  pub same_subject : req.subject ≡ v.subject
  pub same_workload : req.workload ≡ v.workload

module _ (st : Store) (k : EvidenceChecker) (s : st.State) where
  evaluate_subject-check :
      (cluster_id : Text) (v : VerifiedEvidence) (operation : ℕ) (e : PolicyEngine)
      (req : PolicyRequest)
      → IsOfCheck k cluster_id v e req
      → evaluate_subject st e req s
        ≡ evaluate_subject st (check_engine k) (check_request cluster_id v operation) s
  unfolding evaluate_subject evaluate_node_evidence check_request
  evaluate_subject-check cluster_id v operation e req h = λ i.
      evaluate_subject st
        (record {
          node_evidence = h.same_reader i;
          policy_id = h.same_policy i;
          evidence_time = h.same_time i;
          challenge_time = k.evidence_now;
        })
        (record {
          cluster_id = h.same_cluster i;
          subject = h.same_subject i;
          workload = h.same_workload i;
          operation = checked_operation operation;
          challenge_id = [];
          key_ref = no_key_ref;
        })
        s

  check_evidence-verified :
      (r : EvidenceCheckRequest) (evidence : EvidenceEnvelope) (v : VerifiedEvidence)
      (log : AuditLogs NodeAudit)
      → k.has_store ≡ true
      → is_empty (trim_space r.cluster_id) ≡ false
      → r.evidence ≡ some evidence
      → k.verify evidence ≡ verified_as v
      → (check_evidence st k s (some r) log).0.decision
        ≡ evaluate_subject st
            (check_engine k)
            (check_request (trim_space r.cluster_id) v r.operation)
            s
  unfolding check_evidence check_present check_verified
  check_evidence-verified r evidence v log store named present verified =
      rw (named, present, store, verified) refl

  evaluate_subject-allowed :
      (e : PolicyEngine) (req : PolicyRequest)
      → allowed (evaluate_subject st e req s) ≡ true
      → evaluate_subject st e req s ≡ allow e.policy_id
  unfolding evaluate_subject
  evaluate_subject-allowed e req h =
      let (named, known, node) = evaluate_subject_sound st e req s h in
      let (u, found) = known in
      let named' : is_empty req.subject ≡ false = is_empty-false req.subject named in
      rw named' (rw found (node_evidence_complete (e.node_evidence) e req refl node))

  evaluate-refused :
      (e : PolicyEngine) (req : PolicyRequest)
      → allowed (evaluate_subject st e req s) ≡ false
      → evaluate st e req s ≡ (evaluate_subject st e req s, s)
  unfolding evaluate
  evaluate-refused e req h = rw h refl

  -- For evidence that the verifier accepts, with a store and a cluster that is named, CheckEvidence
  -- agrees with the policy on every request of the same engine for that cluster, subject and workload:
  -- either the check answers Allow, and the subject of the request is named and in good standing and
  -- the node evidence has nothing against it, or the policy answers the request with the decision of
  -- the check and leaves the state as it is.
  pub check_evidence-evaluate :
      (r : EvidenceCheckRequest) (evidence : EvidenceEnvelope) (v : VerifiedEvidence)
      (log : AuditLogs NodeAudit) (e : PolicyEngine) (req : PolicyRequest)
      → k.has_store ≡ true
      → is_empty (trim_space r.cluster_id) ≡ false
      → r.evidence ≡ some evidence
      → k.verify evidence ≡ verified_as v
      → IsOfCheck k (trim_space r.cluster_id) v e req
      → (((check_evidence st k s (some r) log).0.decision ≡ allow e.policy_id)
          × ((req.subject ≢ [])
              × ((u : Subject) × (st.subject s req.cluster_id req.subject ≡ ok u))
              × HasNodeEvidence e req))
        ⊎ ((allowed (check_evidence st k s (some r) log).0.decision ≡ false)
            × (evaluate st e req s ≡ ((check_evidence st k s (some r) log).0.decision, s)))
  check_evidence-evaluate r evidence v log e req store named present verified same =
      let answer : (check_evidence st k s (some r) log).0.decision ≡ evaluate_subject st e req s =
        check_evidence-verified r evidence v log store named present verified
        ∙ sym (evaluate_subject-check (trim_space r.cluster_id) v r.operation e req same) in
      elim (Bool-cases (allowed (evaluate_subject st e req s))) [
        | inl h ↦
            inl (answer ∙ evaluate_subject-allowed e req h, evaluate_subject_sound st e req s h)
        | inr h ↦ inr (rw answer h, rw answer (evaluate-refused e req h))
      ]
