-- ===== src/Broker/Service.antt =====
-- internal/broker/service.go: the service of the broker and its handler Challenge. A nil request is
-- `none`. The evidence verifier and the provider of keyrings are interfaces. A decision goes to the audit
-- table and to the audit file; a failure of either, or of the identifier of the event, changes no
-- answer. Telemetry is left out.
pub mod Wrap
pub mod Unwrap
pub mod Release
pub mod RoundTrip
pub mod Status
use openbao_attested_unseal.Prelude.{
  ℕ, ◌+◌, ◌/◌, ◌^◌, Bool, true, false, not, ◌||◌, Option, none, some, List, [], ◌∷◌, ◌++◌, ◌==◌,
  if◌then◌else◌,
}
use openbao_attested_unseal.Prelude.Result.{Error, Result, ok, err, other, ◌>>=◌, ◌>>◌, guard}
use openbao_attested_unseal.Prelude.Text.{Text, codes, is_empty}
use openbao_attested_unseal.Keyring.Key.{KeyRef, KeyVersion}
use openbao_attested_unseal.Keyring.Ring.{Ring, active_version}
use openbao_attested_unseal.Keyring.Primitives.{Primitives}
use openbao_attested_unseal.Keyring.Wrap.{BlobInfo, encrypt, decrypt}
use openbao_attested_unseal.Broker.Challenge.{Challenge}
use openbao_attested_unseal.Broker.Policy.{
  PolicyDecision, PolicyEngine, PolicyRequest, WorkloadIdentity, Store, allow, deny, allowed,
  invalid_request, attestation_failed, code_key_not_usable, internal, operation_wrap,
  operation_unwrap, evaluate, key_ref_from_proto,
}
use openbao_attested_unseal.Broker.Audit.{AuditAttempt, AuditLogs, record_event}
use openbao_attested_unseal.Broker.Message.{
  EvidenceEnvelope, VerifiedEvidence, WrappedBlob, WrapRequest, WrapResponse, UnwrapRequest,
  UnwrapResponse, ChallengeRequest, ChallengeResponse, AuditEntry, challenge_id_of,
  wrapped_blob_to_proto, proto_to_blob_info, no_key_ref, names_version, key_of,
}

-- Service, with what one call takes from outside: ctx.Err(), a nonce of crypto/rand, the readings of
-- the clock in its policy engine, whose policy is the one of the configuration, and what its one attempt
-- to audit meets.
pub record Service (st : Store) : Type 0 where
  pub cluster_id : Text
  pub challenge_ttl : ℕ
  pub keyrings : Option (st.State → Text → Result Ring)
  pub verify : Option EvidenceEnvelope → Result VerifiedEvidence
  pub engine : PolicyEngine
  pub cancelled : Option Error
  pub nonce : Result Text
  pub attempt : AuditAttempt

-- The event that newAuditEvent makes.
abbrev pub audit_entry : Text → ℕ → Text → Text → ℕ → PolicyDecision → Text → ℕ → AuditEntry
audit_entry subject operation cluster_id key_id version decision id time = record {
  audit_id = id;
  time = time;
  subject = subject;
  operation = operation;
  cluster_id = cluster_id;
  key_id = key_id;
  version = version;
  decision = decision;
}

module _ (st : Store) where
  pub record ServiceState : Type 0 where
    pub store : st.State
    pub audit : AuditLogs AuditEntry

  -- auditDecision, on the state after the store of the request has changed
  abbrev pub audit_decision :
      Service st
      → st.State
      → Text
      → ℕ
      → Text
      → Text
      → ℕ
      → PolicyDecision
      → ServiceState
      → ServiceState
  audit_decision sv store subject operation cluster_id key_id version decision s = record {
    store = store;
    audit =
        record_event sv.attempt (audit_entry subject operation cluster_id key_id version decision)
          s.audit;
  }

  -- loadKeyring
  unfoldable pub load_keyring : Service st → st.State → Text → Result Ring
  load_keyring sv s cluster_id = elim (sv.keyrings) [
    | none ↦ err other
    | some load ↦ load s cluster_id
  ]

  -- The answer of evidenceSubject to an error of the verifier.
  abbrev pub evidence_deny : Service st → PolicyDecision
  evidence_deny sv =
      deny sv.engine.policy_id attestation_failed (codes "attestation verification failed")

  -- wrapKeyRef
  unfoldable pub wrap_key_ref : Service st → st.State → Option KeyRef → KeyRef × PolicyDecision
  wrap_key_ref sv s requested =
      if names_version requested
      then elim (key_ref_from_proto requested) [
        | err x ↦ (
          no_key_ref,
          deny sv.engine.policy_id invalid_request (codes "requested key reference is invalid"),
        )
        | ok ref ↦ (ref, allow sv.engine.policy_id)
      ]
      else elim (load_keyring sv s sv.cluster_id >>= active_version) [
        | err x ↦ (
          no_key_ref,
          deny sv.engine.policy_id code_key_not_usable (codes "active key is unavailable"),
        )
        | ok v ↦ (v.ref, allow sv.engine.policy_id)
      ]

  -- The request that a handler puts to the policy.
  abbrev pub policy_request :
      VerifiedEvidence → ℕ → Option EvidenceEnvelope → KeyRef → PolicyRequest
  policy_request verified operation evidence ref = record {
    cluster_id = ref.cluster_id;
    subject = verified.subject;
    workload = verified.workload;
    operation = operation;
    challenge_id = challenge_id_of evidence;
    key_ref = ref;
  }

  -- Challenge, where `id` and `nonce` are the outcomes of randomID and randomNonce and `now` is the
  -- reading of the clock; an expiry is in nanoseconds, and the response
  -- gives its seconds
  unfoldable pub challenge :
      Service st
      → Result Text
      → Result Text
      → ℕ
      → Option ChallengeRequest
      → st.State
      → Result (ChallengeResponse × st.State)
  challenge sv id nonce now none s = err other
  challenge sv id nonce now (some req) s = do
    guard (not (is_empty req.cluster_id || is_empty req.node_id)) other
    challenge_id ← id
    bytes ← nonce
    let c : Challenge = record {
      id = challenge_id;
      nonce = bytes;
      cluster_id = req.cluster_id;
      subject = req.node_id;
      operation = req.operation;
      expires_at = now + sv.challenge_ttl;
      created_at = now;
    }
    s' ← st.create s c
    ok (
      record {
        challenge_id = challenge_id;
        nonce = bytes;
        expires_unix_seconds = (now + sv.challenge_ttl) / 10 ^ 9;
      },
      s',
    )
