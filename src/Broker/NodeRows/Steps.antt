-- ===== src/Broker/NodeRows/Steps.antt =====
-- internal/broker/sqlite.go: the operations on the tables of nodes as steps.
use openbao_attested_unseal.Prelude.{ℕ, ◌≡◌, inl, inr, ◌||◌, Bool-cases}
use openbao_attested_unseal.Prelude.Result.{ok, Result-cases, >>=-ok}
use openbao_attested_unseal.Prelude.Text.{Text, is_empty}
use openbao_attested_unseal.Prelude.Trim.{trim_space}
use openbao_attested_unseal.Tpm.Library.{TpmLibrary}
use openbao_attested_unseal.Broker.Policy.{NodeEvidence}
use openbao_attested_unseal.Nodeevidence.Evidence.{is_zero_time, trimmed_key}
use openbao_attested_unseal.Nodeevidence.Enrollment.{
  EnrollmentRequest, normalize_enrollment_request,
}
use openbao_attested_unseal.Broker.NodeRows.{NodeText, NodeTables}
use openbao_attested_unseal.Broker.NodeRows.Enroll.{
  enroll_rows, revoke_rows, enroll_node_evidence, revoke_node_evidence,
}
use openbao_attested_unseal.Broker.NodeRows.Evidence.{
  put_enrolled_evidence, put_evidence, delete_rows, expired_rows, prune_before,
}
use openbao_attested_unseal.Broker.NodeRows.Effects.{
  Effect, unchanged, pruned, enroll_rows-Effect, revoke_rows-Effect,
}
use openbao_attested_unseal.Broker.NodeRows.EvidenceEffects.{
  put_enrolled_evidence-Effect, put_evidence-Effect,
}

module _ (x : TpmLibrary) (t : NodeText) where
  -- The operations that change the tables.
  pub data Step (s : NodeTables) : NodeTables → Type 0 where
    enroll : (r : EnrollmentRequest) → Step s (enroll_node_evidence x t r s).0
    revoke :
        (cluster_id node_name : Text) (now : ℕ)
        → Step s (revoke_node_evidence x t cluster_id node_name now s).0
    put_enrolled :
        {s' : NodeTables} (e : NodeEvidence) (revision : ℕ)
        → put_enrolled_evidence t e revision s ≡ ok s'
        → Step s s'
    put : {s' : NodeTables} (e : NodeEvidence) → put_evidence t e s ≡ ok s' → Step s s'
    prune :
        {s' : NodeTables} (cluster_id : Text) (cutoff : ℕ)
        → prune_before t cluster_id cutoff s ≡ ok s'
        → Step s s'

  pub data Reach (s : NodeTables) : NodeTables → Type 0 where
    here : Reach s s
    next : {u v : NodeTables} → Reach s u → Step u v → Reach s v

  -- Every operation has one of the effects.
  pub Step-Effect : {s s' : NodeTables} → Step s s' → Effect s s'
  unfolding prune_before enroll_node_evidence revoke_node_evidence
  Step-Effect {s} (enroll r) = elim (Result-cases (normalize_enrollment_request x r)) [
    | inr (e, f) ↦ rw (f, enroll_node_evidence) (unchanged s)
    | inl (n, f) ↦ elim (Result-cases (enroll_rows t n s)) [
      | inr (e, g) ↦ rw (f, enroll_node_evidence, g) (unchanged s)
      | inl ((s', revision), g) ↦
          rw (f, enroll_node_evidence, g) (enroll_rows-Effect t n s s' revision g)
    ]
  ]
  Step-Effect {s} (revoke cluster_id node_name now) =
      let k = trimmed_key cluster_id node_name in
      elim (Bool-cases (is_empty k.cluster_id || (is_empty k.node_name || is_zero_time now))) [
        | inl f ↦ rw (f, revoke_node_evidence) (unchanged s)
        | inr f ↦ elim (Result-cases (revoke_rows t k now s)) [
          | inr (e, g) ↦ rw (f, revoke_node_evidence, g) (unchanged s)
          | inl ((s', e), g) ↦ rw (f, revoke_node_evidence, g) (revoke_rows-Effect t k now s s' e g)
        ]
      ]
  Step-Effect {s} {s'} (put_enrolled e revision h) =
      let (_, _, _, _, _, effect) = put_enrolled_evidence-Effect t e revision s s' h in effect
  Step-Effect {s} {s'} (put e h) = put_evidence-Effect t e s s' h
  Step-Effect {s} {s'} (prune cluster_id cutoff h) =
      let (ks, _, h1) = >>=-ok (expired_rows t (trim_space cluster_id) cutoff s.evidence) _ h in
      let made : record {
        clusters = s.clusters;
        enrollments = s.enrollments;
        publishers = s.publishers;
        evidence = delete_rows ks s.evidence;
      }
          ≡ s' =
        cc in
      rw (← made) (pruned s ks)
