-- ===== src/Broker/Admin/Accepted.antt =====
-- internal/broker/admin.go: what the broker has checked where PublishNodeEvidence accepts evidence.
use openbao_attested_unseal.Prelude.{
  ◌≡◌, ◌⊎◌, refl, inl, inr, true, false, not, Option, some, List, arith, Bool-cases,
}
use openbao_attested_unseal.Prelude.Result.{Error, ok, Result-cases}
use openbao_attested_unseal.Prelude.Text.{Text}
use openbao_attested_unseal.Broker.Challenge.{StoredChallenge, challenge_nonce, consume_challenge}
use openbao_attested_unseal.Broker.Policy.{NodeEvidence, ErrorCode, allow, deny, allowed}
use openbao_attested_unseal.Nodeevidence.Evidence.{Submission}
use openbao_attested_unseal.Nodeevidence.Enrollment.{Enrollment}
use openbao_attested_unseal.Broker.NodeRows.{NodeTables}
use openbao_attested_unseal.Broker.NodeVerifier.{Authorization, granted, refused, verify_submission}
use openbao_attested_unseal.Broker.Admin.{
  AdminService, AdminCall, AdminState, challenge_refusal, authorize_request,
}
use openbao_attested_unseal.Broker.Admin.Publish.{
  node_evidence_to_proto, submission_from_proto, prune_node_evidence, put_verified, put_refusal,
  presented_challenge, dated, audit_publish, publish_verified, publish_authorized,
  publish_normalized, publish_node_evidence,
}

allowed-challenge_refusal : (id : Text) (x : Error) → allowed (challenge_refusal id x) ≡ false
unfolding challenge_refusal deny
allowed-challenge_refusal id x = ground arith

allowed-put_refusal : (a : AdminService) (x : Error) → allowed (put_refusal a x) ≡ false
unfolding put_refusal deny
allowed-put_refusal a x = ground arith

Authorization-cases :
    (o : Authorization)
    → ((enrollment : Option Enrollment) × (publisher : Text) × (o ≡ granted enrollment publisher))
      ⊎ ((code : ErrorCode) × (reason : Text) × (o ≡ refused code reason))
Authorization-cases (granted enrollment publisher) = inl (enrollment, publisher, refl)
Authorization-cases (refused code reason) = inr (code, reason, refl)

module _ (a : AdminService) (c : AdminCall) (sub : Submission) where
  pub publish_verified-allowed :
      (e : NodeEvidence) (enrollment : Option Enrollment) (s : AdminState)
      → allowed (publish_verified a c sub e enrollment s).0.decision ≡ true
      → (nodes stored : NodeTables) × (prune_node_evidence a c e.cluster_id s.nodes ≡ ok nodes)
        × (put_verified a e enrollment nodes ≡ ok stored)
        × (publish_verified a c sub e enrollment s ≡ (
          record {
            evidence = some (node_evidence_to_proto e c.answer_now);
            decision = allow a.policy_id;
          },
          audit_publish a c sub (allow a.policy_id) (record s { nodes = stored }),
        ))
  unfolding publish_verified deny
  publish_verified-allowed e enrollment s h =
      elim (Result-cases (prune_node_evidence a c e.cluster_id s.nodes)) [
        | inr (x, f) ↦ cc (rw (f, publish_verified) at h)
        | inl (nodes, f) ↦ elim (Result-cases (put_verified a e enrollment nodes)) [
          | inr (x, g) ↦ cc (rw g at (rw (f, publish_verified) at h), allowed-put_refusal a x)
          | inl (stored, g) ↦ (nodes, stored, f, g, rw (f, publish_verified) (rw g refl))
        ]
      ]

  pub publish_authorized-allowed :
      (enrollment : Option Enrollment) (publisher : Text) (s : AdminState)
      → allowed (publish_authorized a c sub enrollment publisher s).0.decision ≡ true
      → (nonce : Text) × (e : NodeEvidence) × (challenges : List StoredChallenge) × (challenge_nonce
            (presented_challenge a c sub publisher)
            s.challenges
          ≡ ok nonce)
        × (verify_submission a.library.tpm a.library.unmarshal_evidence sub nonce enrollment ≡ ok e)
        × (consume_challenge (presented_challenge a c sub publisher) s.challenges ≡ ok challenges)
        × (publish_authorized a c sub enrollment publisher s
            ≡ publish_verified a c sub
                (dated a c sub e)
                enrollment
                (record s { challenges = challenges }))
  unfolding publish_authorized deny
  publish_authorized-allowed enrollment publisher s h =
      let p = presented_challenge a c sub publisher in
      elim (Result-cases (challenge_nonce p s.challenges)) [
        | inr (x, f) ↦ cc (rw (f, publish_authorized) at h, allowed-challenge_refusal a.policy_id x)
        | inl (nonce, f) ↦
            elim (Result-cases
              (verify_submission a.library.tpm a.library.unmarshal_evidence sub nonce enrollment)) [
                | inr (x, g) ↦ cc (rw g at (rw (f, publish_authorized) at h))
                | inl (e, g) ↦ elim (Result-cases (consume_challenge p s.challenges)) [
                  | inr (x, k) ↦ cc (
                    rw k at (rw g at (rw (f, publish_authorized) at h)),
                    allowed-challenge_refusal a.policy_id x,
                  )
                  | inl (challenges, k) ↦
                      (nonce, e, challenges, f, g, k, rw (f, publish_authorized) (rw g (rw k refl)))
                ]
              ]
      ]

  pub publish_normalized-allowed :
      (s : AdminState)
      → allowed (publish_normalized a c sub s).0.decision ≡ true
      → (enrollment : Option Enrollment) × (publisher : Text) × (authorize_request a c s.nodes
            sub.cluster_id sub.node_name sub.node_uid sub.provider
          ≡ granted enrollment publisher)
        × (publish_normalized a c sub s ≡ publish_authorized a c sub enrollment publisher s)
  unfolding publish_normalized deny
  publish_normalized-allowed s h =
      elim (Authorization-cases
        (authorize_request a c s.nodes sub.cluster_id sub.node_name sub.node_uid sub.provider)) [
          | inr (code, reason, f) ↦ cc (rw (f, publish_normalized) at h)
          | inl (enrollment, publisher, f) ↦
              (enrollment, publisher, f, rw (f, publish_normalized) refl)
        ]

pub publish_node_evidence-allowed :
    (a : AdminService) (c : AdminCall) (message : Option Submission) (s : AdminState)
    → allowed (publish_node_evidence a c message s).0.decision ≡ true
    → (sub : Submission) × (submission_from_proto message ≡ ok sub)
      × (publish_node_evidence a c message s ≡ publish_normalized a c sub s)
unfolding publish_node_evidence deny
publish_node_evidence-allowed a c message s h = elim (Bool-cases (not a.has_node_evidence)) [
  | inl f ↦ cc (rw (f, publish_node_evidence) at h)
  | inr f ↦ elim (Result-cases (submission_from_proto message)) [
    | inr (x, g) ↦ cc (rw g at (rw (f, publish_node_evidence) at h))
    | inl (sub, g) ↦ (sub, g, rw (f, publish_node_evidence) (rw g refl))
  ]
]
