-- ===== src/Broker/Service/Unwrap.antt =====
-- internal/broker/service.go: the handler Unwrap.
use openbao_attested_unseal.Prelude.{not, Option, none, some, [], if◌then◌else◌}
use openbao_attested_unseal.Prelude.Result.{ok, err}
use openbao_attested_unseal.Prelude.Text.{Text, codes}
use openbao_attested_unseal.Keyring.Key.{KeyRef}
use openbao_attested_unseal.Keyring.Primitives.{Primitives}
use openbao_attested_unseal.Keyring.Wrap.{decrypt}
use openbao_attested_unseal.Broker.Policy.{
  PolicyDecision, Store, deny, allowed, invalid_request, internal, operation_unwrap, evaluate,
  key_ref_from_proto,
}
use openbao_attested_unseal.Broker.Message.{
  VerifiedEvidence, UnwrapRequest, UnwrapResponse, proto_to_blob_info, key_of,
}
use openbao_attested_unseal.Broker.Service.{
  Service, ServiceState, audit_decision, load_keyring, evidence_deny, policy_request,
}

module _ (p : Primitives) (st : Store) where
  -- Unwrap, from the keyring on
  unfoldable pub unwrap_with_keyring :
      Service st
      → UnwrapRequest
      → VerifiedEvidence
      → KeyRef
      → PolicyDecision
      → st.State
      → ServiceState st
      → UnwrapResponse × ServiceState st
  unwrap_with_keyring sv req verified ref decision store s =
      let failed : Text → UnwrapResponse × ServiceState st = λ reason. (
        record { plaintext = []; decision = deny sv.engine.policy_id internal reason },
        record s { store = store },
      ) in
      elim (load_keyring st sv store ref.cluster_id) [
        | err _ ↦ failed (codes "keyring load failed")
        | ok ring ↦
            elim (decrypt p sv.cancelled ring (some (proto_to_blob_info req.blob)) req.aad) [
              | err _ ↦ failed (codes "unwrap failed")
              | ok plaintext ↦ (
                record { plaintext = plaintext; decision = decision },
                audit_decision st sv store verified.subject operation_unwrap ref.cluster_id
                    ref.key_id ref.version decision s,
              )
            ]
      ]

  -- Unwrap
  unfoldable pub unwrap :
      Service st → Option UnwrapRequest → ServiceState st → UnwrapResponse × ServiceState st
  unwrap sv none s = (
    record {
      plaintext = [];
      decision = deny sv.engine.policy_id invalid_request (codes "unwrap request is required");
    },
    s,
  )
  unwrap sv (some req) s = elim (sv.verify req.evidence) [
    | err _ ↦ (
      record { plaintext = []; decision = evidence_deny st sv },
      audit_decision st sv s.store [] operation_unwrap sv.cluster_id [] 0 (evidence_deny st sv) s,
    )
    | ok verified ↦ elim (key_ref_from_proto (key_of req.blob)) [
      | err _ ↦
          let refused =
            deny sv.engine.policy_id invalid_request (codes "blob key reference is invalid") in
          (
            record { plaintext = []; decision = refused },
            audit_decision st sv s.store verified.subject operation_unwrap sv.cluster_id [] 0
                refused s,
          )
      | ok ref ↦
          let (decision, store) =
            evaluate st sv.engine (policy_request st verified operation_unwrap req.evidence ref)
              s.store in
          if not (allowed decision)
          then (
            record { plaintext = []; decision = decision },
            audit_decision st sv store verified.subject operation_unwrap ref.cluster_id ref.key_id
                ref.version decision s,
          )
          else unwrap_with_keyring sv req verified ref decision store s
    ]
  ]
