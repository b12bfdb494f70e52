-- ===== src/Broker/Admin/Attested.antt =====
-- internal/broker/admin.go, node_evidence_authorization.go and node_evidence_verifier.go: what stands
-- behind TPM evidence that PublishNodeEvidence accepts.
use openbao_attested_unseal.Prelude.{
  ◌≡◌, refl, sym, ap, ◌∙◌, inl, inr, true, Option, some, Bool-cases,
}
use openbao_attested_unseal.Prelude.Result.{ok}
use openbao_attested_unseal.Prelude.Text.{Text, text_eq, text_eq_iff}
use openbao_attested_unseal.Broker.Challenge.{challenge_nonce, consume_challenge}
use openbao_attested_unseal.Broker.Policy.{NodeEvidence, allowed}
use openbao_attested_unseal.Nodeevidence.Evidence.{Submission, provider_tpm2_quote}
use openbao_attested_unseal.Nodeevidence.Enrollment.{Enrollment, authorizes_publisher}
use openbao_attested_unseal.Broker.NodeRows.{NodeTables}
use openbao_attested_unseal.Broker.NodeRows.Enroll.{active_enrollment}
use openbao_attested_unseal.Broker.NodeRows.Evidence.{put_enrolled_evidence}
use openbao_attested_unseal.Broker.NodeVerifier.{granted, payload_hash}
use openbao_attested_unseal.Broker.Admin.{
  AdminService, AdminCall, AdminState, active_in, accepts_cluster, can_publish_provider, authorize,
  authorize_request,
}
use openbao_attested_unseal.Broker.Admin.Publish.{
  submission_from_proto, prune_node_evidence, put_verified, enrolled_revision, presented_challenge,
  dated, publish_normalized, publish_node_evidence,
}
use openbao_attested_unseal.Broker.Admin.Accepted.{
  publish_verified-allowed, publish_authorized-allowed, publish_normalized-allowed,
  publish_node_evidence-allowed,
}
use openbao_attested_unseal.Broker.NodeVerifier.Granted.{
  IsVerified, authorize_publisher-granted, verify_tpm-ok, verify_provider-tpm, verify_submission-ok,
}

authorize_request-granted :
    (a : AdminService) (c : AdminCall) (nodes : NodeTables)
    (cluster node uid provider publisher : Text) (enrollment : Option Enrollment)
    → authorize_request a c nodes cluster node uid provider ≡ granted enrollment publisher
    → (can_publish_provider a provider ≡ true)
      × (authorize a c nodes cluster node uid provider ≡ granted enrollment publisher)
unfolding authorize_request
authorize_request-granted a c nodes cluster node uid provider publisher enrollment h =
    elim (Bool-cases (accepts_cluster a cluster)) [
      | inr f ↦ cc (rw (f, authorize_request) at h)
      | inl f ↦ elim (Bool-cases (can_publish_provider a provider)) [
        | inr g ↦ cc (rw g at (rw (f, authorize_request) at h))
        | inl g ↦ (g, rw g at (rw (f, authorize_request) at h))
      ]
    ]

module _ (a : AdminService) (c : AdminCall) (sub : Submission) (s s' : AdminState) where
  -- What stands behind an accepted TPM submission.
  pub record IsAttested : Type 0 where
    pub raw : Text
    pub nonce : Text
    pub enrollment : Enrollment
    pub stored : NodeEvidence
    pub nodes : NodeTables
    pub authenticated : c.certificate ≡ some raw
    pub active :
        active_enrollment a.library.tpm a.library.rows sub.cluster_id sub.node_name s.nodes
        ≡ ok enrollment
    pub may_publish :
        authorizes_publisher enrollment
          (payload_hash a.library.tpm a.library.unmarshal_evidence raw)
        ≡ true
    pub same_uid : enrollment.node_uid ≡ sub.node_uid
    pub challenged :
        challenge_nonce
          (presented_challenge a c sub
            (payload_hash a.library.tpm a.library.unmarshal_evidence raw))
          s.challenges
        ≡ ok nonce
    pub verified : IsVerified a.library.tpm a.library.unmarshal_evidence sub nonce enrollment
    pub consumed :
        consume_challenge
          (presented_challenge a c sub
            (payload_hash a.library.tpm a.library.unmarshal_evidence raw))
          s.challenges
        ≡ ok s'.challenges
    pub pruned : prune_node_evidence a c sub.cluster_id s.nodes ≡ ok nodes
    pub put : put_enrolled_evidence a.library.rows stored enrollment.revision nodes ≡ ok s'.nodes
    pub hashed :
        stored.evidence_hash ≡ payload_hash a.library.tpm a.library.unmarshal_evidence sub.payload
    pub collected : stored.collected_at ≡ c.now

put_verified-tpm :
    (a : AdminService) (e : NodeEvidence) (enrollment : Option Enrollment) (nodes : NodeTables)
    → e.provider ≡ provider_tpm2_quote
    → put_verified a e enrollment nodes
      ≡ put_enrolled_evidence a.library.rows e (enrolled_revision enrollment) nodes
unfolding put_verified
put_verified-tpm a e enrollment nodes provider =
    let tpm : text_eq e.provider provider_tpm2_quote ≡ true =
      (text_eq_iff e.provider provider_tpm2_quote).1 provider in
    rw (tpm, put_verified) refl

-- The query of the active enrollment, where the repository has answered.
active_in-ok :
    (a : AdminService) (nodes : NodeTables) (cluster_id node_name : Text) (e : Enrollment)
    → active_in a nodes cluster_id node_name ≡ some (ok e)
    → active_enrollment a.library.tpm a.library.rows cluster_id node_name nodes ≡ ok e
active_in-ok a nodes cluster_id node_name e h = elim (Bool-cases (a.has_enrollments)) [
  | inl held ↦ cc (rw held at h)
  | inr missing ↦ cc (rw missing at h)
]

publish_normalized-IsAttested :
    (a : AdminService) (c : AdminCall) (sub : Submission) (s : AdminState)
    → sub.provider ≡ provider_tpm2_quote
    → allowed (publish_normalized a c sub s).0.decision ≡ true
    → IsAttested a c sub s (publish_normalized a c sub s).1
unfolding authorize dated
publish_normalized-IsAttested a c sub s provider h =
    let x = a.library.tpm in
    let unmarshal = a.library.unmarshal_evidence in
    let (enrollment, publisher, permitted, e1) = publish_normalized-allowed a c sub s h in
    let (nonce, e, challenges, challenged, verified, consumed, e2) =
      publish_authorized-allowed a c sub enrollment publisher s (rw e1 at h) in
    let s1 = record s { challenges = challenges } in
    let (nodes, stored, pruned, put, e3) =
      publish_verified-allowed a c sub (dated a c sub e) enrollment s1 (rw e2 at (rw e1 at h)) in
    let (_, granted_to) =
      authorize_request-granted a c s.nodes sub.cluster_id sub.node_name sub.node_uid sub.provider
        publisher enrollment permitted in
    let (raw, node, certificate, active, held, hash, uid, listed) =
      authorize_publisher-granted x unmarshal c.certificate sub.node_uid publisher
        (active_in a s.nodes sub.cluster_id sub.node_name) enrollment (rw provider at granted_to) in
    let (passed, cluster, same_provider, hashed) =
      verify_submission-ok x unmarshal sub nonce enrollment e verified in
    let tpm : e.provider ≡ provider_tpm2_quote = same_provider ∙ provider in
    let written : put_enrolled_evidence a.library.rows (dated a c sub e)
          (enrolled_revision enrollment) nodes
        ≡ ok stored =
      sym (put_verified-tpm a (dated a c sub e) enrollment nodes tpm) ∙ put in
    rw (e1, e2, e3)
      (record {
        raw = raw;
        nonce = nonce;
        enrollment = node;
        stored = dated a c sub e;
        nodes = nodes;
        authenticated = certificate;
        active = active_in-ok a s.nodes sub.cluster_id sub.node_name node active;
        may_publish = rw hash at listed;
        same_uid = uid;
        challenged = rw hash at challenged;
        verified =
            verify_tpm-ok x unmarshal sub nonce node
              (verify_provider-tpm x unmarshal sub nonce node provider (rw held at passed));
        consumed = rw hash at consumed;
        pruned = ap (λ id. prune_node_evidence a c id s.nodes) (sym cluster) ∙ pruned;
        put = rw held at written;
        hashed = hashed;
        collected = refl;
      })

-- Where PublishNodeEvidence accepts a TPM submission, its publisher presented a certificate that the
-- active enrollment of the node lists, the enrollment has the UID of the submission, the TPM policy of
-- the enrollment trusts the evidence for the nonce of the challenge that is presented and now consumed,
-- and what is stored, under the revision of that enrollment, has the hash of the payload and the time
-- of the broker.
pub publish_node_evidence-IsAttested :
    (a : AdminService) (c : AdminCall) (message : Option Submission) (sub : Submission)
    (s : AdminState)
    → submission_from_proto message ≡ ok sub
    → sub.provider ≡ provider_tpm2_quote
    → allowed (publish_node_evidence a c message s).0.decision ≡ true
    → IsAttested a c sub s (publish_node_evidence a c message s).1
publish_node_evidence-IsAttested a c message sub s taken provider h =
    let (sub', taken', e0) = publish_node_evidence-allowed a c message s h in
    let same : sub' ≡ sub = cc in
    let e1 : publish_node_evidence a c message s ≡ publish_normalized a c sub s =
      e0 ∙ ap (λ m. publish_normalized a c m s) same in
    rw e1 (publish_normalized-IsAttested a c sub s provider (rw e1 at h))
