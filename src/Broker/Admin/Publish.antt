-- ===== src/Broker/Admin/Publish.antt =====
-- internal/broker/admin.go: the handler PublishNodeEvidence.
use openbao_attested_unseal.Prelude.{
  ℕ, ◌+◌, ◌-◌, ◌*◌, ◌/◌, ◌^◌, Bool, not, ltb, ◌==◌, ◌&&◌, Option, none, some, [], if◌then◌else◌,
}
use openbao_attested_unseal.Prelude.Result.{
  Error, Result, ok, err, other, enrollment_changed, ◌>>◌, guard,
}
use openbao_attested_unseal.Prelude.Int.{pos, pos_part, ltb_ℤ, leb_ℤ}
use openbao_attested_unseal.Prelude.Text.{Text, codes, text_eq}
use openbao_attested_unseal.Broker.Challenge.{Presented, challenge_nonce, consume_challenge}
use openbao_attested_unseal.Broker.Policy.{
  NodeEvidence, PolicyDecision, allow, deny, invalid_request, permission_denied, attestation_failed,
  internal,
}
use openbao_attested_unseal.Nodeevidence.Evidence.{
  Submission, provider_tpm2_quote, normalize_submission,
}
use openbao_attested_unseal.Nodeevidence.Enrollment.{Enrollment}
use openbao_attested_unseal.Broker.NodeRows.{NodeTables}
use openbao_attested_unseal.Broker.NodeRows.Evidence.{
  put_enrolled_evidence, put_evidence, prune_before,
}
use openbao_attested_unseal.Broker.NodeVerifier.{
  granted, refused, payload_hash, challenge_request_of, verify_submission,
}
use openbao_attested_unseal.Broker.Admin.{
  AdminService, AdminCall, AdminState, operation_enroll, default_node_evidence_retention,
  audit_node_evidence, challenge_subject, challenge_refusal, accepted_ttl, authorize_request,
}

-- NodeEvidenceRecord; `fresh` is its status
pub record NodeEvidenceRecord : Type 0 where
  pub cluster_id : Text
  pub node_name : Text
  pub node_uid : Text
  pub provider : Text
  pub evidence_hash : Text
  pub collected_unix_seconds : ℕ
  pub expires_unix_seconds : ℕ
  pub fresh : Bool

pub record NodePublishResponse : Type 0 where
  pub evidence : Option NodeEvidenceRecord
  pub decision : PolicyDecision

-- nodeEvidenceToProto
unfoldable pub node_evidence_to_proto : NodeEvidence → ℕ → NodeEvidenceRecord
node_evidence_to_proto e now = record {
  cluster_id = e.cluster_id;
  node_name = e.node_name;
  node_uid = e.node_uid;
  provider = e.provider;
  evidence_hash = e.evidence_hash;
  collected_unix_seconds = e.collected_at / 10 ^ 9;
  expires_unix_seconds = e.expires_at / 10 ^ 9;
  fresh = ltb now e.expires_at;
}

-- nodeEvidenceSubmissionFromProto; the requested TTL of the message is in seconds
unfoldable pub submission_from_proto : Option Submission → Result Submission
submission_from_proto none = err other
submission_from_proto (some m) = do
  guard (ltb_ℤ (pos 0) m.requested_ttl && leb_ℤ m.requested_ttl (pos (365 * 24 * 3600))) other
  normalize_submission (record m { requested_ttl = pos (pos_part m.requested_ttl * 10 ^ 9) })

abbrev pub operation_publish : Text
operation_publish = codes "NODE_EVIDENCE_PUBLISH"

-- pruneNodeEvidence, where node evidence is stored. Nothing expires before a time before 1970.
unfoldable pub prune_node_evidence :
    AdminService → AdminCall → Text → NodeTables → Result NodeTables
prune_node_evidence a c cluster_id nodes =
    let retention =
      if a.node_evidence_retention == 0
      then default_node_evidence_retention
      else a.node_evidence_retention in
    prune_before a.library.rows cluster_id (c.retention_now - retention) nodes

-- The revision that TPM evidence is stored under.
abbrev pub enrolled_revision : Option Enrollment → ℕ
enrolled_revision none = 0
enrolled_revision (some e) = e.revision

-- The write of verified evidence.
unfoldable pub put_verified :
    AdminService → NodeEvidence → Option Enrollment → NodeTables → Result NodeTables
put_verified a e enrollment nodes =
    if text_eq e.provider provider_tpm2_quote
    then put_enrolled_evidence a.library.rows e (enrolled_revision enrollment) nodes
    else put_evidence a.library.rows e nodes

-- The answer to an error of that write.
unfoldable pub put_refusal : AdminService → Error → PolicyDecision
put_refusal a enrollment_changed =
    deny a.policy_id permission_denied
      (codes "node evidence enrollment changed during verification")
put_refusal a e = deny a.policy_id invalid_request (a.library.error_text e)

abbrev refuse_publish : PolicyDecision → NodePublishResponse
refuse_publish decision = record { evidence = none; decision = decision }

module _ (a : AdminService) (c : AdminCall) (sub : Submission) where
  -- The presentation of the challenge that a submission names.
  unfoldable pub presented_challenge : Text → Presented
  presented_challenge publisher = record {
    id = sub.challenge_id;
    cluster_id = sub.cluster_id;
    subject = challenge_subject a (challenge_request_of sub) publisher;
    operation = operation_enroll;
    now = c.now;
  }

  -- The evidence with the times that the broker gives it.
  unfoldable pub dated : NodeEvidence → NodeEvidence
  dated e = record e {
    collected_at = c.now;
    expires_at = c.now + accepted_ttl a (pos_part sub.requested_ttl);
  }

  -- auditNodeEvidence with the names of the submission
  abbrev pub audit_publish : PolicyDecision → AdminState → AdminState
  audit_publish decision s =
      audit_node_evidence c operation_publish sub.cluster_id sub.node_name
        (payload_hash a.library.tpm a.library.unmarshal_evidence sub.payload) decision s

  abbrev pub refuse : PolicyDecision → AdminState → NodePublishResponse × AdminState
  refuse decision s = (refuse_publish decision, audit_publish decision s)

  -- PublishNodeEvidence, once the challenge is consumed: prune, write and answer
  unfoldable pub publish_verified :
      NodeEvidence → Option Enrollment → AdminState → NodePublishResponse × AdminState
  publish_verified e enrollment s = elim (prune_node_evidence a c e.cluster_id s.nodes) [
    | err _ ↦ refuse (deny a.policy_id internal (codes "node evidence cleanup failed")) s
    | ok nodes ↦ elim (put_verified a e enrollment nodes) [
      | err x ↦ refuse (put_refusal a x) (record s { nodes = nodes })
      | ok stored ↦
          let decision = allow a.policy_id in
          (
            record { evidence = some (node_evidence_to_proto e c.answer_now); decision = decision },
            audit_publish decision (record s { nodes = stored }),
          )
    ]
  ]

  -- PublishNodeEvidence, once the publisher is authorized: the nonce, the verification and the challenge
  unfoldable pub publish_authorized :
      Option Enrollment → Text → AdminState → NodePublishResponse × AdminState
  publish_authorized enrollment publisher s =
      let p = presented_challenge publisher in
      elim (challenge_nonce p s.challenges) [
        | err x ↦ refuse (challenge_refusal a.policy_id x) s
        | ok nonce ↦
            elim (verify_submission a.library.tpm a.library.unmarshal_evidence sub nonce
              enrollment) [
                | err _ ↦
                    refuse
                      (deny a.policy_id attestation_failed
                        (codes "node evidence verification failed"))
                      s
                | ok e ↦ elim (consume_challenge p s.challenges) [
                  | err x ↦ refuse (challenge_refusal a.policy_id x) s
                  | ok challenges ↦
                      publish_verified (dated e) enrollment (record s { challenges = challenges })
                ]
              ]
      ]

  -- PublishNodeEvidence, on a submission that is normalised
  unfoldable pub publish_normalized : AdminState → NodePublishResponse × AdminState
  publish_normalized s =
      elim (authorize_request a c s.nodes sub.cluster_id sub.node_name sub.node_uid sub.provider) [
        | refused code reason ↦ refuse (deny a.policy_id code reason) s
        | granted enrollment publisher ↦ publish_authorized enrollment publisher s
      ]

-- PublishNodeEvidence
unfoldable pub publish_node_evidence :
    AdminService → AdminCall → Option Submission → AdminState → NodePublishResponse × AdminState
publish_node_evidence a c message s =
    if not a.has_node_evidence
    then (let decision =
          deny a.policy_id internal (codes "node evidence storage is not configured") in
        (refuse_publish decision, audit_node_evidence c operation_publish [] [] [] decision s))
    else elim (submission_from_proto message) [
      | err e ↦
          let decision = deny a.policy_id invalid_request (a.library.error_text e) in
          (refuse_publish decision, audit_node_evidence c operation_publish [] [] [] decision s)
      | ok sub ↦ publish_normalized a c sub s
    ]
