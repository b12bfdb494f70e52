-- ===== src/Broker/Admin/Issue.antt =====
-- internal/broker/admin.go: the handler ChallengeNodeEvidence.
use openbao_attested_unseal.Prelude.{ℕ, ◌+◌, ◌/◌, ◌^◌, ◌==◌, Option, none, some, [], if◌then◌else◌}
use openbao_attested_unseal.Prelude.Result.{Error, Result, ok, err, ◌>>=◌}
use openbao_attested_unseal.Prelude.Text.{Text, codes}
use openbao_attested_unseal.Broker.Challenge.{Challenge, create_challenge}
use openbao_attested_unseal.Broker.Policy.{PolicyDecision, allow, deny, invalid_request, internal}
use openbao_attested_unseal.Nodeevidence.Evidence.{
  NodeChallengeRequest, normalize_challenge_request,
}
use openbao_attested_unseal.Broker.NodeVerifier.{granted, refused}
use openbao_attested_unseal.Broker.Admin.{
  AdminService, AdminCall, AdminState, NodeChallengeResponse, audit_node_evidence,
  authorize_request, challenge_subject, default_challenge_ttl, operation_enroll,
}

abbrev pub operation_challenge : Text
operation_challenge = codes "NODE_EVIDENCE_CHALLENGE"

abbrev answer_challenge : Text → Text → ℕ → PolicyDecision → NodeChallengeResponse
answer_challenge id nonce seconds decision = record {
  challenge_id = id;
  nonce = nonce;
  expires_unix_seconds = seconds;
  decision = decision;
}

-- ChallengeNodeEvidence, on a request that is normalised
unfoldable pub challenge_normalized :
    AdminService
    → AdminCall
    → NodeChallengeRequest
    → AdminState
    → Result (NodeChallengeResponse × AdminState)
challenge_normalized a c r s =
    let audited = λ (decision : PolicyDecision) (s' : AdminState).
      audit_node_evidence c operation_challenge r.cluster_id r.node_name [] decision s' in
    elim (authorize_request a c s.nodes r.cluster_id r.node_name r.node_uid r.provider) [
      | refused code reason ↦
          let decision = deny a.policy_id code reason in
          ok (answer_challenge [] [] 0 decision, audited decision s)
      | granted _ publisher ↦ do
        id ← c.challenge_id
        nonce ← c.nonce
        let ttl = if a.challenge_ttl == 0 then default_challenge_ttl else a.challenge_ttl
        let challenge : Challenge = record {
          id = id;
          nonce = nonce;
          cluster_id = r.cluster_id;
          subject = challenge_subject a r publisher;
          operation = operation_enroll;
          expires_at = c.now + ttl;
          created_at = c.now;
        }
        elim (create_challenge challenge s.challenges) [
          | err _ ↦
              let decision = deny a.policy_id internal (codes "node evidence challenge failed") in
              ok (answer_challenge [] [] 0 decision, audited decision s)
          | ok challenges ↦
              let decision = allow a.policy_id in
              ok (
                answer_challenge id nonce ((c.now + ttl) / 10 ^ 9) decision,
                audited decision (record s { challenges = challenges }),
              )
        ]
    ]

-- nodeEvidenceChallengeRequestFromProto
unfoldable pub challenge_request_from_proto :
    Option NodeChallengeRequest → Result NodeChallengeRequest
challenge_request_from_proto none = err Error.other
challenge_request_from_proto (some r) = normalize_challenge_request r

-- ChallengeNodeEvidence
unfoldable pub challenge_node_evidence :
    AdminService
    → AdminCall
    → Option NodeChallengeRequest
    → AdminState
    → Result (NodeChallengeResponse × AdminState)
challenge_node_evidence a c req s = elim (challenge_request_from_proto req) [
  | err e ↦
      let decision = deny a.policy_id invalid_request (a.library.error_text e) in
      ok (
        answer_challenge [] [] 0 decision,
        audit_node_evidence c operation_challenge [] [] [] decision s,
      )
  | ok r ↦ challenge_normalized a c r s
]
