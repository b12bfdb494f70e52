-- ===== src/Broker/Policy.antt =====
-- internal/broker/policy.go: the default-deny policy. The store and the reader of node evidence are
-- interfaces; the two readings of the clock are arguments, and telemetry is left out.
pub mod Decide
pub mod Evaluate
use openbao_attested_unseal.Prelude.{
  ℕ, Bool, true, false, not, ◌&&◌, ◌||◌, Option, none, some, List, [], ◌∷◌, ◌==◌, if◌then◌else◌,
}
use openbao_attested_unseal.Prelude.Result.{
  Error, Result, ok, err, invalid_metadata, key_not_found, subject_revoked, subject_not_found,
  node_evidence_not_found, node_evidence_stale, challenge_expired, challenge_replayed,
  challenge_not_found, challenge_mismatch, ◌>>=◌, ◌>>◌, guard,
}
use openbao_attested_unseal.Prelude.Text.{Text, codes, text_eq, is_empty}
use openbao_attested_unseal.Keyring.Key.{KeyRef, Status, is_active, decrypts, validate_ref}
use openbao_attested_unseal.Keyprotection.{ProtectedKey}
use openbao_attested_unseal.Broker.Challenge.{Challenge, Presented}
use openbao_attested_unseal.Broker.Subjects.{Subject}

-- POLICY_DECISION_STATE_…
pub data DecisionState : Type 0 where
  state_unspecified allow_state deny_state : DecisionState

-- ERROR_CODE_…
pub data ErrorCode : Type 0 where
  code_unspecified invalid_request unauthenticated permission_denied code_key_not_found : ErrorCode
  code_key_not_usable attestation_failed broker_unavailable internal : ErrorCode

pub record PolicyDecision : Type 0 where
  pub state : DecisionState
  pub error_code : ErrorCode
  pub policy_id : Text
  pub reason : Text

-- OPERATION_WRAP and OPERATION_UNWRAP
abbrev pub operation_wrap : ℕ
operation_wrap = 1

abbrev pub operation_unwrap : ℕ
operation_unwrap = 2

-- Allow
unfoldable pub allow : Text → PolicyDecision
allow policy_id = record {
  state = allow_state;
  error_code = code_unspecified;
  policy_id = policy_id;
  reason = codes "allowed by development subject policy";
}

-- Deny
unfoldable pub deny : Text → ErrorCode → Text → PolicyDecision
deny policy_id code reason = record {
  state = deny_state;
  error_code = code;
  policy_id = policy_id;
  reason = reason;
}

-- PolicyDecision.Allowed
abbrev pub allowed : PolicyDecision → Bool
allowed d = elim (d.state) [ allow_state ↦ true | _ ↦ false ]

pub record WorkloadIdentity : Type 0 where
  pub namespace : Text
  pub service_account : Text
  pub pod_name : Text
  pub pod_uid : Text
  pub node_name : Text
  pub node_uid : Text

-- nodeevidence.Evidence
pub record NodeEvidence : Type 0 where
  pub cluster_id : Text
  pub node_name : Text
  pub node_uid : Text
  pub provider : Text
  pub evidence_hash : Text
  pub collected_at : ℕ
  pub expires_at : ℕ

-- policyRequest
pub record PolicyRequest : Type 0 where
  pub cluster_id : Text
  pub subject : Text
  pub workload : WorkloadIdentity
  pub operation : ℕ
  pub challenge_id : Text
  pub key_ref : KeyRef

-- What the policy and the service use of Store: the queries of the state, and CreateChallenge and
-- ConsumeChallenge, which change it where they succeed.
pub record Store : Type 1 where
  pub State : Type 0
  pub subject : State → Text → Text → Result Subject
  pub create : State → Challenge → Result State
  pub consume : State → Presented → Result State
  pub protected_key : State → KeyRef → Result ProtectedKey

-- NodeEvidenceReader, nil where there is none
abbrev pub Reader : Type 0
Reader = Option (Text → Text → ℕ → Result NodeEvidence)

-- PolicyEngine, with the readings of its clock for the node evidence and for the challenge
pub record PolicyEngine : Type 0 where
  pub node_evidence : Reader
  pub policy_id : Text
  pub evidence_time : ℕ
  pub challenge_time : ℕ

-- nodeEvidenceDeny
abbrev pub node_evidence_deny : Text → Error → PolicyDecision
node_evidence_deny policy_id Error.node_evidence_not_found =
    deny policy_id attestation_failed (codes "node evidence is missing")
node_evidence_deny policy_id Error.node_evidence_stale =
    deny policy_id attestation_failed (codes "node evidence is stale")
node_evidence_deny policy_id _ = deny policy_id internal (codes "node evidence lookup failed")

-- challengeDeny
abbrev pub challenge_deny : Text → Error → PolicyDecision
challenge_deny policy_id Error.challenge_expired =
    deny policy_id permission_denied (codes "challenge expired")
challenge_deny policy_id Error.challenge_replayed =
    deny policy_id permission_denied (codes "challenge was already consumed")
challenge_deny policy_id Error.challenge_not_found =
    deny policy_id permission_denied (codes "challenge is invalid")
challenge_deny policy_id Error.challenge_mismatch =
    deny policy_id permission_denied (codes "challenge is invalid")
challenge_deny policy_id _ = deny policy_id internal (codes "challenge validation failed")

-- The answer of evaluateSubjectAndNodeEvidence to an error of Store.Subject.
abbrev pub subject_deny : Text → Error → PolicyDecision
subject_deny policy_id Error.subject_revoked =
    deny policy_id permission_denied (codes "subject is revoked")
subject_deny policy_id Error.subject_not_found =
    deny policy_id permission_denied (codes "subject is not allowed")
subject_deny policy_id _ = deny policy_id internal (codes "subject lookup failed")

-- The answer of evaluate to an error of Store.ProtectedKey.
abbrev pub key_deny : Text → Error → PolicyDecision
key_deny policy_id Error.key_not_found =
    deny policy_id code_key_not_found (codes "key version was not found")
key_deny policy_id _ = deny policy_id internal (codes "key lookup failed")

-- evaluateNodeEvidence
unfoldable pub evaluate_node_evidence : PolicyEngine → PolicyRequest → PolicyDecision
evaluate_node_evidence e req = elim (e.node_evidence) [
  | none ↦ allow e.policy_id
  | some read ↦
      if is_empty req.workload.node_name
      then allow e.policy_id
      else elim (read req.cluster_id req.workload.node_name e.evidence_time) [
        | err x ↦ node_evidence_deny e.policy_id x
        | ok evidence ↦
            if not (is_empty req.workload.node_uid)
              && (not (is_empty evidence.node_uid)
                  && not (text_eq req.workload.node_uid evidence.node_uid))
            then deny e.policy_id attestation_failed
                (codes "node evidence does not match workload node")
            else allow e.policy_id
      ]
]

-- The status that the operation asks of the key version.
unfoldable pub check_status : Text → ℕ → Status → PolicyDecision
check_status policy_id operation status =
    if operation == operation_wrap && not (is_active status)
    then deny policy_id code_key_not_usable (codes "wrap requires active key")
    else if operation == operation_unwrap && not (decrypts status)
    then deny policy_id code_key_not_usable (codes "unwrap requires active or decrypt-only key")
    else allow policy_id

-- The arguments of ConsumeChallenge.
abbrev pub presented : PolicyEngine → PolicyRequest → Presented
presented e req = record {
  id = req.challenge_id;
  cluster_id = req.cluster_id;
  subject = req.subject;
  operation = req.operation;
  now = e.challenge_time;
}

module _ (st : Store) where
  -- evaluateSubjectAndNodeEvidence
  unfoldable pub evaluate_subject : PolicyEngine → PolicyRequest → st.State → PolicyDecision
  evaluate_subject e req s =
      if is_empty req.subject
      then deny e.policy_id unauthenticated (codes "subject evidence is required")
      else elim (st.subject s req.cluster_id req.subject) [
        | err x ↦ subject_deny e.policy_id x
        | ok _ ↦ evaluate_node_evidence e req
      ]

  -- evaluate, after the challenge is consumed
  unfoldable pub evaluate_key : PolicyEngine → PolicyRequest → st.State → PolicyDecision
  evaluate_key e req s = elim (st.protected_key s req.key_ref) [
    | err x ↦ key_deny e.policy_id x
    | ok version ↦ check_status e.policy_id req.operation version.status
  ]

  -- PolicyEngine.evaluate, with the state that it leaves
  unfoldable pub evaluate : PolicyEngine → PolicyRequest → st.State → PolicyDecision × st.State
  evaluate e req s =
      let first = evaluate_subject e req s in
      if not (allowed first)
      then (first, s)
      else if is_empty req.challenge_id
      then (deny e.policy_id invalid_request (codes "challenge is required"), s)
      else elim (st.consume s (presented e req)) [
        | err x ↦ (challenge_deny e.policy_id x, s)
        | ok s' ↦ (evaluate_key e req s', s')
      ]

-- ref in keyRefFromProto, nil where the message has none; a version is a uint32
unfoldable pub key_ref_from_proto : Option KeyRef → Result KeyRef
key_ref_from_proto none = err invalid_metadata
key_ref_from_proto (some ref) = validate_ref ref >> ok ref
