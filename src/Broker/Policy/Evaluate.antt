-- ===== src/Broker/Policy/Evaluate.antt =====
-- policy.go: the requests that PolicyEngine.evaluate allows.
use openbao_attested_unseal.Prelude.{◌≡◌, refl, ◌↔◌, ◌⊎◌, inl, inr, true, false, arith, Bool-cases}
use openbao_attested_unseal.Prelude.Result.{ok, Result-cases}
use openbao_attested_unseal.Prelude.Text.{codes, is_empty}
use openbao_attested_unseal.Keyprotection.{ProtectedKey}
use openbao_attested_unseal.Broker.Policy.{
  PolicyRequest, PolicyEngine, Store, ErrorCode, allow, allowed, presented, evaluate_subject,
  evaluate_key, evaluate,
}
use openbao_attested_unseal.Broker.Policy.Decide.{
  IsAllowed, StatusFits, allowed-deny, allowed-allow, allowed-challenge_deny, allowed-key_deny,
  is_empty_iff, is_empty-false, check_status-fits, check_status-of_fits, evaluate_subject_sound,
  evaluate_subject_complete,
}

module _ (st : Store) where
  -- Whatever the policy decides, the state is the one before it, or the one that consuming the
  -- presented challenge leaves; and where it is the one before it without a consumption, the request is
  -- refused.
  pub evaluate-state :
      (e : PolicyEngine) (req : PolicyRequest) (s : st.State)
      → (((evaluate st e req s).1 ≡ s) × (allowed (evaluate st e req s).0 ≡ false))
        ⊎ (st.consume s (presented e req) ≡ ok (evaluate st e req s).1)
  unfolding evaluate
  evaluate-state e req s = elim (Bool-cases (allowed (evaluate_subject st e req s))) [
    | inr refused ↦ inl (rw refused refl, rw refused refused)
    | inl first ↦ elim (Bool-cases (is_empty req.challenge_id)) [
      | inl none_given ↦ inl (
        rw first (rw none_given refl),
        rw first (rw none_given (allowed-deny e.policy_id ErrorCode.invalid_request _)),
      )
      | inr given ↦ elim (Result-cases (st.consume s (presented e req))) [
        | inr (x, failed) ↦ inl (
          rw first (rw given (rw failed refl)),
          rw first (rw given (rw failed (allowed-challenge_deny e.policy_id x))),
        )
        | inl (t, done) ↦ inr (rw first (rw given (rw done refl)))
      ]
    ]
  ]

  evaluate_key_sound :
      (e : PolicyEngine) (req : PolicyRequest) (s : st.State)
      → allowed (evaluate_key st e req s) ≡ true
      → (k : ProtectedKey) × (st.protected_key s req.key_ref ≡ ok k)
        × StatusFits req.operation k.status
  unfolding evaluate_key
  evaluate_key_sound e req s h = elim (Result-cases (st.protected_key s req.key_ref)) [
    | inr (x, failed) ↦ absurd (ground (arith, allowed-key_deny e.policy_id x))
    | inl (k, found) ↦
        (k, found, check_status-fits e.policy_id req.operation k.status (ground arith))
  ]

  -- What a decision that is not a refusal went through.
  evaluate-taken :
      (e : PolicyEngine) (req : PolicyRequest) (s : st.State)
      → allowed (evaluate st e req s).0 ≡ true
      → (allowed (evaluate_subject st e req s) ≡ true)
        × (is_empty req.challenge_id ≡ false)
        × ((t : st.State) × (st.consume s (presented e req) ≡ ok t)
            × (evaluate st e req s ≡ (evaluate_key st e req t, t)))
  unfolding evaluate
  evaluate-taken e req s h = elim (Bool-cases (allowed (evaluate_subject st e req s))) [
    | inr refused ↦ absurd (cc (rw (refused, evaluate, refused) at h))
    | inl first ↦ elim (Bool-cases (is_empty req.challenge_id)) [
      | inl none_given ↦ absurd (
          ground (
            arith,
            allowed-deny e.policy_id ErrorCode.invalid_request (codes "challenge is required"),
          ))
      | inr given ↦ elim (Result-cases (st.consume s (presented e req))) [
        | inr (x, failed) ↦ absurd (ground (arith, allowed-challenge_deny e.policy_id x))
        | inl (t, done) ↦ (first, given, (t, done, rw first (rw given (rw done refl))))
      ]
    ]
  ]

  evaluate_sound :
      (e : PolicyEngine) (req : PolicyRequest) (s : st.State)
      → allowed (evaluate st e req s).0 ≡ true
      → IsAllowed st e req s (evaluate st e req s).1
  evaluate_sound e req s h =
      let (first, given, taken) = evaluate-taken e req s h in
      let (t, done, eq) = taken in
      let (named, known, node) = evaluate_subject_sound st e req s first in
      let allows : IsAllowed st e req s t = record {
        named = named;
        known = known;
        node = node;
        challenged = λ n. ground (arith, (is_empty_iff req.challenge_id).1 n);
        consumed = done;
        key = evaluate_key_sound e req t (rw eq at h);
      } in
      rw eq allows

  evaluate_key_complete :
      (e : PolicyEngine) (req : PolicyRequest) (s : st.State) (k : ProtectedKey)
      → st.protected_key s req.key_ref ≡ ok k
      → StatusFits req.operation k.status
      → evaluate_key st e req s ≡ allow e.policy_id
  unfolding evaluate_key
  evaluate_key_complete e req s k found fits =
      rw (found, evaluate_key) (check_status-of_fits e.policy_id req.operation k.status fits)

  evaluate_complete :
      (e : PolicyEngine) (req : PolicyRequest) (s s' : st.State)
      → IsAllowed st e req s s'
      → evaluate st e req s ≡ (allow e.policy_id, s')
  unfolding evaluate
  evaluate_complete e req s s' h =
      let (k, found, fits) = h.key in
      rw (evaluate_subject_complete st e req s s' h) (
        rw (allowed-allow e.policy_id) (
          rw (is_empty-false req.challenge_id h.challenged)
            (rw h.consumed (rw (evaluate_key_complete e req s' k found fits) refl))))

  -- The policy allows a request and leaves a state exactly where its conditions hold with that state:
  -- the subject is named and in good standing, the node evidence has nothing against it, a challenge
  -- is presented and consumed, and the key version is held under a status that the operation asks for.
  -- The decision is then Allow.
  pub evaluate-allowed :
      (e : PolicyEngine) (req : PolicyRequest) (s s' : st.State)
      → ((allowed (evaluate st e req s).0 ≡ true) × ((evaluate st e req s).1 ≡ s'))
        ↔ (IsAllowed st e req s s' × (evaluate st e req s ≡ (allow e.policy_id, s')))
  evaluate-allowed e req s s' = (
    λ (h, same).
        let a : IsAllowed st e req s s' = rw same at (evaluate_sound e req s h) in
        (a, evaluate_complete e req s s' a),
    λ (a, eq). (rw eq (allowed-allow e.policy_id), rw eq refl),
  )
