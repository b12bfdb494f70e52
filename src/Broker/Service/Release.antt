-- ===== src/Broker/Service/Release.antt =====
-- service.go: when Unwrap releases a plaintext.
use openbao_attested_unseal.Prelude.{
  ◌≡◌, refl, ◌∙◌, inl, inr, true, false, Option, none, some, [], arith, Bool-cases,
}
use openbao_attested_unseal.Prelude.Result.{ok, Result-cases}
use openbao_attested_unseal.Prelude.Text.{Text, codes}
use openbao_attested_unseal.Keyring.Key.{KeyRef}
use openbao_attested_unseal.Keyring.Ring.{Ring}
use openbao_attested_unseal.Keyring.Primitives.{Primitives}
use openbao_attested_unseal.Keyring.Wrap.{decrypt}
use openbao_attested_unseal.Broker.Policy.{
  PolicyDecision, Store, allowed, operation_unwrap, evaluate, key_ref_from_proto, invalid_request,
  internal, attestation_failed,
}
use openbao_attested_unseal.Broker.Policy.Decide.{IsAllowed, allowed-deny}
use openbao_attested_unseal.Broker.Policy.Evaluate.{evaluate-allowed}
use openbao_attested_unseal.Broker.Audit.{IsRecorded, record_event-IsRecorded}
use openbao_attested_unseal.Broker.Message.{
  VerifiedEvidence, UnwrapRequest, UnwrapResponse, proto_to_blob_info, key_of,
}
use openbao_attested_unseal.Broker.Service.{
  Service, ServiceState, audit_entry, audit_decision, load_keyring, policy_request,
}
use openbao_attested_unseal.Broker.Service.Unwrap.{unwrap_with_keyring, unwrap}

module _ (p : Primitives) (st : Store) where
  -- What an allowed response of Unwrap rests on.
  pub record IsReleased (sv : Service st) (req : UnwrapRequest) (s : ServiceState st)
      (response : UnwrapResponse) (s' : ServiceState st) : Type 0 where
    pub verified : VerifiedEvidence
    pub ref : KeyRef
    pub ring : Ring
    pub attested : sv.verify req.evidence ≡ ok verified
    pub names_key : key_ref_from_proto (key_of req.blob) ≡ ok ref
    pub permitted :
        IsAllowed st sv.engine
          (policy_request st verified operation_unwrap req.evidence ref)
          s.store
          s'.store
    pub loaded : load_keyring st sv s'.store ref.cluster_id ≡ ok ring
    pub opened :
        decrypt p sv.cancelled ring (some (proto_to_blob_info req.blob)) req.aad
        ≡ ok response.plaintext
    pub audited :
        IsRecorded sv.attempt
          (λ id time. record {
            audit_id = id;
            time = time;
            subject = verified.subject;
            operation = operation_unwrap;
            cluster_id = ref.cluster_id;
            key_id = ref.key_id;
            version = ref.version;
            decision = response.decision;
          })
          s.audit
          s'.audit

  unwrap_with_keyring-allowed :
      (sv : Service st) (req : UnwrapRequest) (v : VerifiedEvidence) (ref : KeyRef)
      (d : PolicyDecision) (store : st.State) (s : ServiceState st)
      → allowed (unwrap_with_keyring p st sv req v ref d store s).0.decision ≡ true
      → (ring : Ring) × (t : Text) × (load_keyring st sv store ref.cluster_id ≡ ok ring)
        × (decrypt p sv.cancelled ring (some (proto_to_blob_info req.blob)) req.aad ≡ ok t)
        × (unwrap_with_keyring p st sv req v ref d store s ≡ (
          record { plaintext = t; decision = d },
          audit_decision st sv store v.subject operation_unwrap ref.cluster_id ref.key_id
              ref.version d s,
        ))
  unfolding unwrap_with_keyring
  unwrap_with_keyring-allowed sv req v ref d store s h =
      elim (Result-cases (load_keyring st sv store ref.cluster_id)) [
        | inr (x, failed) ↦ absurd (
            ground (arith, allowed-deny sv.engine.policy_id internal (codes "keyring load failed")))
        | inl (ring, loaded) ↦
            elim (Result-cases
              (decrypt p sv.cancelled ring (some (proto_to_blob_info req.blob)) req.aad)) [
                | inr (x, failed) ↦ absurd (
                    ground
                      (arith, allowed-deny sv.engine.policy_id internal (codes "unwrap failed")))
                | inl (t, opened) ↦
                    (ring, t, loaded, opened, rw (loaded, unwrap_with_keyring) (rw opened refl))
              ]
      ]

  pub unwrap-granted :
      (sv : Service st) (req : UnwrapRequest) (s : ServiceState st) (v : VerifiedEvidence)
      (ref : KeyRef)
      → sv.verify req.evidence ≡ ok v
      → key_ref_from_proto (key_of req.blob) ≡ ok ref
      → allowed
          (evaluate st sv.engine (policy_request st v operation_unwrap req.evidence ref) s.store).0
        ≡ true
      → unwrap p st sv (some req) s
        ≡ unwrap_with_keyring p st sv req v ref
            (evaluate st sv.engine
              (policy_request st v operation_unwrap req.evidence ref)
              s.store).0
            (evaluate st sv.engine
              (policy_request st v operation_unwrap req.evidence ref)
              s.store).1
            s
  unfolding unwrap
  unwrap-granted sv req s v ref attested named granted =
      rw (attested, unwrap) (rw named (rw granted refl))

  unwrap-taken :
      (sv : Service st) (req : UnwrapRequest) (s : ServiceState st)
      → allowed (unwrap p st sv (some req) s).0.decision ≡ true
      → (v : VerifiedEvidence) × (ref : KeyRef) × (sv.verify req.evidence ≡ ok v)
        × (key_ref_from_proto (key_of req.blob) ≡ ok ref)
        × (allowed
              (evaluate st sv.engine
                (policy_request st v operation_unwrap req.evidence ref)
                s.store).0
            ≡ true)
        × (unwrap p st sv (some req) s
            ≡ unwrap_with_keyring p st sv req v ref
                (evaluate st sv.engine
                  (policy_request st v operation_unwrap req.evidence ref)
                  s.store).0
                (evaluate st sv.engine
                  (policy_request st v operation_unwrap req.evidence ref)
                  s.store).1
                s)
  unfolding unwrap
  unwrap-taken sv req s h = elim (Result-cases (sv.verify req.evidence)) [
    | inr (x, failed) ↦ absurd (
        ground (
          arith,
          allowed-deny sv.engine.policy_id attestation_failed
              (codes "attestation verification failed"),
        ))
    | inl (v, attested) ↦ elim (Result-cases (key_ref_from_proto (key_of req.blob))) [
      | inr (x, failed) ↦ absurd (
          ground (
            arith,
            allowed-deny sv.engine.policy_id invalid_request
                (codes "blob key reference is invalid"),
          ))
      | inl (ref, named) ↦
          elim (Bool-cases (
            allowed
              (evaluate st sv.engine (policy_request st v operation_unwrap req.evidence ref)
                s.store).0)) [
                  | inr refused ↦ absurd (ground arith)
                  | inl granted ↦ (
                    v,
                    ref,
                    attested,
                    named,
                    granted,
                    unwrap-granted sv req s v ref attested named granted,
                  )
                ]
    ]
  ]

  -- Where Unwrap answers a request with an allowed decision, the evidence was verified, the blob names
  -- a valid key reference, the policy allowed that reference and the presented challenge was consumed,
  -- the plaintext is what the loaded keyring opens the blob to, and the decision was handed to the audit
  -- sinks as an event of that subject and that key: where no identifier could be drawn for the event
  -- both logs are unchanged, and otherwise the audit table has grown by the event exactly where its
  -- insert succeeded, and the audit file exactly where the line reached it.
  pub unwrap-IsReleased :
      (sv : Service st) (req : UnwrapRequest) (s : ServiceState st)
      → allowed (unwrap p st sv (some req) s).0.decision ≡ true
      → IsReleased sv req s (unwrap p st sv (some req) s).0 (unwrap p st sv (some req) s).1
  unwrap-IsReleased sv req s h =
      let (v, ref, attested, named, granted, taken) = unwrap-taken sv req s h in
      let request = policy_request st v operation_unwrap req.evidence ref in
      let d = (evaluate st sv.engine request s.store).0 in
      let store = (evaluate st sv.engine request s.store).1 in
      let (ring, t, loaded, opened, answered) =
        unwrap_with_keyring-allowed sv req v ref d store s (rw taken at h) in
      let released : IsReleased sv req s (record { plaintext = t; decision = d })
          (audit_decision st sv store v.subject operation_unwrap ref.cluster_id ref.key_id
            ref.version d s) =
        record {
          verified = v;
          ref = ref;
          ring = ring;
          attested = attested;
          names_key = named;
          permitted = ((evaluate-allowed st sv.engine request s.store store).0 (granted, refl)).0;
          loaded = loaded;
          opened = opened;
          audited =
              record_event-IsRecorded sv.attempt
                (audit_entry v.subject operation_unwrap ref.cluster_id ref.key_id ref.version d)
                s.audit;
        } in
      rw (taken ∙ answered) released

  unwrap_with_keyring-refused :
      (sv : Service st) (req : UnwrapRequest) (v : VerifiedEvidence) (ref : KeyRef)
      (d : PolicyDecision) (store : st.State) (s : ServiceState st)
      → allowed d ≡ true
      → allowed (unwrap_with_keyring p st sv req v ref d store s).0.decision ≡ false
      → (unwrap_with_keyring p st sv req v ref d store s).0.plaintext ≡ []
  unfolding unwrap_with_keyring
  unwrap_with_keyring-refused sv req v ref d store s granted h =
      elim (Result-cases (load_keyring st sv store ref.cluster_id)) [
        | inr (x, failed) ↦ rw (failed, unwrap_with_keyring) refl
        | inl (ring, loaded) ↦
            elim (Result-cases
              (decrypt p sv.cancelled ring (some (proto_to_blob_info req.blob)) req.aad)) [
                | inr (x, failed) ↦ rw (loaded, unwrap_with_keyring) (rw failed refl)
                | inl (t, opened) ↦ absurd (ground arith)
              ]
      ]

  unwrap-refused_granted :
      (sv : Service st) (req : UnwrapRequest) (s : ServiceState st) (v : VerifiedEvidence)
      (ref : KeyRef)
      → sv.verify req.evidence ≡ ok v
      → key_ref_from_proto (key_of req.blob) ≡ ok ref
      → allowed
          (evaluate st sv.engine (policy_request st v operation_unwrap req.evidence ref) s.store).0
        ≡ true
      → allowed (unwrap p st sv (some req) s).0.decision ≡ false
      → (unwrap p st sv (some req) s).0.plaintext ≡ []
  unwrap-refused_granted sv req s v ref attested named granted h =
      let taken = unwrap-granted sv req s v ref attested named granted in
      rw taken (
        unwrap_with_keyring-refused sv req v ref
          (evaluate st sv.engine (policy_request st v operation_unwrap req.evidence ref) s.store).0
          (evaluate st sv.engine (policy_request st v operation_unwrap req.evidence ref) s.store).1
          s granted (rw taken at h))

  -- A response of Unwrap that is not allowed holds no plaintext.
  pub unwrap-refused :
      (sv : Service st) (req : Option UnwrapRequest) (s : ServiceState st)
      → allowed (unwrap p st sv req s).0.decision ≡ false
      → (unwrap p st sv req s).0.plaintext ≡ []
  unfolding unwrap
  unwrap-refused sv none s h = refl
  unwrap-refused sv (some req) s h = elim (Result-cases (sv.verify req.evidence)) [
    | inr (x, failed) ↦ rw (failed, unwrap) refl
    | inl (v, attested) ↦ elim (Result-cases (key_ref_from_proto (key_of req.blob))) [
      | inr (x, failed) ↦ rw (attested, unwrap) (rw failed refl)
      | inl (ref, named) ↦
          elim (Bool-cases (
            allowed
              (evaluate st sv.engine (policy_request st v operation_unwrap req.evidence ref)
                s.store).0)) [
                  | inr refused ↦ rw (attested, unwrap) (rw named (rw refused refl))
                  | inl granted ↦ unwrap-refused_granted sv req s v ref attested named granted h
                ]
    ]
  ]
