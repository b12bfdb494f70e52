-- ===== src/Broker/Service/Wrap.antt =====
-- internal/broker/service.go: the handler Wrap.
use openbao_attested_unseal.Prelude.{not, Option, none, some, [], if◌then◌else◌}
use openbao_attested_unseal.Prelude.Result.{ok, err}
use openbao_attested_unseal.Prelude.Text.{Text, codes}
use openbao_attested_unseal.Keyring.Key.{KeyRef}
use openbao_attested_unseal.Keyring.Primitives.{Primitives}
use openbao_attested_unseal.Keyring.Wrap.{encrypt}
use openbao_attested_unseal.Broker.Policy.{
  PolicyDecision, Store, deny, allowed, invalid_request, internal, operation_wrap, evaluate,
}
use openbao_attested_unseal.Broker.Message.{
  VerifiedEvidence, WrapRequest, WrapResponse, wrapped_blob_to_proto,
}
use openbao_attested_unseal.Broker.Service.{
  Service, ServiceState, audit_decision, load_keyring, evidence_deny, wrap_key_ref, policy_request,
}

module _ (p : Primitives) (st : Store) where
  -- Wrap, from the keyring on; `store` is the store after the policy has allowed the request
  unfoldable pub wrap_with_keyring :
      Service st
      → WrapRequest
      → VerifiedEvidence
      → KeyRef
      → PolicyDecision
      → st.State
      → ServiceState st
      → WrapResponse × ServiceState st
  wrap_with_keyring sv req verified ref decision store s =
      let failed : Text → WrapResponse × ServiceState st = λ reason. (
        record { blob = none; decision = deny sv.engine.policy_id internal reason },
        record s { store = store },
      ) in
      elim (load_keyring st sv store ref.cluster_id) [
        | err _ ↦ failed (codes "keyring load failed")
        | ok ring ↦ elim (encrypt p sv.cancelled sv.nonce ring req.plaintext req.aad) [
          | err _ ↦ failed (codes "wrap failed")
          | ok blob ↦ (
            record { blob = wrapped_blob_to_proto blob; decision = decision },
            audit_decision st sv store verified.subject operation_wrap ref.cluster_id ref.key_id
                ref.version decision s,
          )
        ]
      ]

  -- Wrap, with the evidence verified
  unfoldable pub wrap_verified :
      Service st → WrapRequest → VerifiedEvidence → ServiceState st → WrapResponse × ServiceState st
  wrap_verified sv req verified s =
      let (ref, found) = wrap_key_ref st sv s.store req.requested_key in
      let (decision, store) =
        evaluate st sv.engine (policy_request st verified operation_wrap req.evidence ref)
          s.store in
      if not (allowed found)
      then (
        record { blob = none; decision = found },
        audit_decision st sv s.store verified.subject operation_wrap sv.cluster_id [] 0 found s,
      )
      else if not (allowed decision)
      then (
        record { blob = none; decision = decision },
        audit_decision st sv store verified.subject operation_wrap ref.cluster_id ref.key_id
            ref.version decision s,
      )
      else wrap_with_keyring sv req verified ref decision store s

  -- Wrap
  unfoldable pub wrap :
      Service st → Option WrapRequest → ServiceState st → WrapResponse × ServiceState st
  wrap sv none s = (
    record {
      blob = none;
      decision = deny sv.engine.policy_id invalid_request (codes "wrap request is required");
    },
    s,
  )
  wrap sv (some req) s = elim (sv.verify req.evidence) [
    | err _ ↦ (
      record { blob = none; decision = evidence_deny st sv },
      audit_decision st sv s.store [] operation_wrap sv.cluster_id [] 0 (evidence_deny st sv) s,
    )
    | ok verified ↦ wrap_verified sv req verified s
  ]
