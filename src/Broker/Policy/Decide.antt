-- ===== src/Broker/Policy/Decide.antt =====
-- policy.go: what the policy allows, and what it does to the state.
use openbao_attested_unseal.Prelude.{
  ℕ, ◌≡◌, ◌≢◌, refl, ◌↔◌, ◌⊎◌, inl, inr, true, false, not, ◌&&◌, none, some, [], ◌∷◌, ◌==◌, ==_iff,
  arith, Bool-cases,
}
use openbao_attested_unseal.Prelude.Result.{Error, ok, Result-cases}
use openbao_attested_unseal.Prelude.Text.{Text, codes, text_eq, text_eq_iff, text_eq_refl, is_empty}
use openbao_attested_unseal.Keyring.Key.{Status, active, decrypt_only, decrypts}
use openbao_attested_unseal.Keyprotection.{ProtectedKey}
use openbao_attested_unseal.Broker.Subjects.{Subject}
use openbao_attested_unseal.Broker.Policy.{
  PolicyRequest, PolicyEngine, NodeEvidence, Reader, Store, ErrorCode, allow, deny, allowed,
  node_evidence_deny, challenge_deny, subject_deny, key_deny, evaluate_node_evidence, check_status,
  presented, evaluate_subject, operation_wrap, operation_unwrap,
}

-- The node evidence has nothing against the request: there is no reader, or no node named, or the
-- reader has evidence of the node whose UID does not contradict the workload's.
abbrev pub HasNodeEvidence : PolicyEngine → PolicyRequest → Type 0
HasNodeEvidence e req = read_evidence (e.node_evidence)
  where
    read_evidence : Reader → Type 0
    read_evidence none = Unit
    read_evidence (some read) =
        (req.workload.node_name ≡ [])
        ⊎ ((evidence : NodeEvidence) × (read req.cluster_id req.workload.node_name e.evidence_time
              ≡ ok evidence)
            × ((req.workload.node_uid ≡ [])
                ⊎ ((evidence.node_uid ≡ []) ⊎ (req.workload.node_uid ≡ evidence.node_uid))))

pub allowed-deny : (p : Text) (c : ErrorCode) (r : Text) → allowed (deny p c r) ≡ false
unfolding deny
allowed-deny p c r = refl

pub allowed-allow : (p : Text) → allowed (allow p) ≡ true
unfolding allow
allowed-allow p = refl

-- The errors of the interfaces are answered by refusals.
allowed-node_evidence_deny : (p : Text) (x : Error) → allowed (node_evidence_deny p x) ≡ false
unfolding deny
allowed-node_evidence_deny p x = ground arith

pub allowed-challenge_deny : (p : Text) (x : Error) → allowed (challenge_deny p x) ≡ false
unfolding deny
allowed-challenge_deny p x = ground arith

allowed-subject_deny : (p : Text) (x : Error) → allowed (subject_deny p x) ≡ false
unfolding deny
allowed-subject_deny p x = ground arith

pub allowed-key_deny : (p : Text) (x : Error) → allowed (key_deny p x) ≡ false
unfolding deny
allowed-key_deny p x = ground arith

-- The status that an operation asks for.
pub data StatusFits (operation : ℕ) (status : Status) : Type 0 where
  fits_wrap : operation ≡ operation_wrap → status ≡ active → StatusFits operation status
  fits_unwrap :
      operation ≡ operation_unwrap
      → (status ≡ active) ⊎ (status ≡ decrypt_only)
      → StatusFits operation status
  fits_other :
      operation ≢ operation_wrap → operation ≢ operation_unwrap → StatusFits operation status

pub is_empty_iff : (t : Text) → (is_empty t ≡ true) ↔ (t ≡ [])
is_empty_iff [] = (λ h. refl, λ h. refl)
is_empty_iff (c ∷ t) = (λ h. cc, λ h. cc)

pub is_empty-false : (t : Text) → t ≢ [] → is_empty t ≡ false
is_empty-false [] n = absurd (n refl)
is_empty-false (c ∷ t) n = refl

mismatch-false :
    (a b : Text)
    → (not (is_empty a) && (not (is_empty b) && not (text_eq a b))) ≡ false
    → (a ≡ []) ⊎ ((b ≡ []) ⊎ (a ≡ b))
mismatch-false [] b h = inl refl
mismatch-false (c ∷ a) [] h = inr (inl refl)
mismatch-false (c ∷ a) (d ∷ b) h = inr (inr ((text_eq_iff (c ∷ a) (d ∷ b)).0 (ground arith)))

mismatch-of :
    (a b : Text)
    → (a ≡ []) ⊎ ((b ≡ []) ⊎ (a ≡ b))
    → (not (is_empty a) && (not (is_empty b) && not (text_eq a b))) ≡ false
mismatch-of a b (inl e) = rw e refl
mismatch-of a b (inr (inl e)) = rw e (ground arith)
mismatch-of a b (inr (inr e)) = rw e (rw (text_eq_refl b) (ground arith))

decrypts-cases :
    (status : Status) → decrypts status ≡ true → (status ≡ active) ⊎ (status ≡ decrypt_only)
decrypts-cases Status.pending h = cc
decrypts-cases Status.active h = inl refl
decrypts-cases Status.decrypt_only h = inr refl
decrypts-cases Status.retired h = cc
decrypts-cases (Status.unrecognized t) h = cc

differ : (a b : ℕ) → (a == b) ≡ false → a ≢ b
differ a b h e = ground arith

pub check_status-fits :
    (p : Text) (operation : ℕ) (status : Status)
    → allowed (check_status p operation status) ≡ true
    → StatusFits operation status
unfolding check_status allow deny
check_status-fits p operation status h = elim (Bool-cases (operation == operation_wrap)) [
  | inl w ↦ fits_wrap ((==_iff operation operation_wrap).0 w) (ground arith)
  | inr nw ↦ elim (Bool-cases (operation == operation_unwrap)) [
    | inl u ↦
        fits_unwrap ((==_iff operation operation_unwrap).0 u) (decrypts-cases status (ground arith))
    | inr nu ↦
        fits_other (differ operation operation_wrap nw) (differ operation operation_unwrap nu)
  ]
]

pub check_status-of_fits :
    (p : Text) (operation : ℕ) (status : Status)
    → StatusFits operation status
    → check_status p operation status ≡ allow p
unfolding check_status
check_status-of_fits p operation status (fits_wrap w a) = rw w (rw a refl)
check_status-of_fits p operation status (fits_unwrap u (inl a)) = rw u (rw a refl)
check_status-of_fits p operation status (fits_unwrap u (inr d)) = rw u (rw d refl)
check_status-of_fits p operation status (fits_other w u) = ground arith

node_evidence_sound :
    (reader : Reader) (e : PolicyEngine) (req : PolicyRequest)
    → e.node_evidence ≡ reader
    → allowed (evaluate_node_evidence e req) ≡ true
    → HasNodeEvidence e req
unfolding evaluate_node_evidence allow deny
node_evidence_sound none e req r h = rw r tt
node_evidence_sound (some read) e req r h = elim (Bool-cases (is_empty req.workload.node_name)) [
  | inl unnamed ↦ rw r (inl ((is_empty_iff req.workload.node_name).0 unnamed))
  | inr named ↦ elim (Result-cases (read req.cluster_id req.workload.node_name e.evidence_time)) [
    | inr (x, failed) ↦ absurd (ground (arith, allowed-node_evidence_deny e.policy_id x))
    | inl (evidence, found) ↦ rw r (
        inr
          (evidence, found, mismatch-false req.workload.node_uid evidence.node_uid (ground arith)))
  ]
]

pub node_evidence_complete :
    (reader : Reader) (e : PolicyEngine) (req : PolicyRequest)
    → e.node_evidence ≡ reader
    → HasNodeEvidence e req
    → evaluate_node_evidence e req ≡ allow e.policy_id
unfolding evaluate_node_evidence
node_evidence_complete none e req r h = rw r refl
node_evidence_complete (some read) e req r h = elim (rw r at h) [
  | inl unnamed ↦ rw r (rw unnamed refl)
  | inr (evidence, found, match) ↦
      rw r
        (rw found (rw (mismatch-of req.workload.node_uid evidence.node_uid match) (ground arith)))
]

module _ (st : Store) where
  -- The conditions of the policy, with the state after the challenge is consumed.
  pub record IsAllowed (e : PolicyEngine) (req : PolicyRequest) (s s' : st.State) : Type 0 where
    pub named : req.subject ≢ []
    pub known : (u : Subject) × (st.subject s req.cluster_id req.subject ≡ ok u)
    pub node : HasNodeEvidence e req
    pub challenged : req.challenge_id ≢ []
    pub consumed : st.consume s (presented e req) ≡ ok s'
    pub key :
        (k : ProtectedKey) × (st.protected_key s' req.key_ref ≡ ok k)
        × StatusFits req.operation k.status

  pub evaluate_subject_sound :
      (e : PolicyEngine) (req : PolicyRequest) (s : st.State)
      → allowed (evaluate_subject st e req s) ≡ true
      → (req.subject ≢ [])
        × ((u : Subject) × (st.subject s req.cluster_id req.subject ≡ ok u))
        × HasNodeEvidence e req
  unfolding evaluate_subject
  evaluate_subject_sound e req s h = elim (Bool-cases (is_empty req.subject)) [
    | inl empty ↦ absurd (
        ground (
          arith,
          allowed-deny e.policy_id ErrorCode.unauthenticated (codes "subject evidence is required"),
        ))
    | inr named ↦ elim (Result-cases (st.subject s req.cluster_id req.subject)) [
      | inr (x, failed) ↦ absurd (ground (arith, allowed-subject_deny e.policy_id x))
      | inl (u, found) ↦ (
        λ n. ground (arith, (is_empty_iff req.subject).1 n),
        (u, found),
        node_evidence_sound (e.node_evidence) e req refl (ground arith),
      )
    ]
  ]

  pub evaluate_subject_complete :
      (e : PolicyEngine) (req : PolicyRequest) (s s' : st.State)
      → IsAllowed e req s s'
      → evaluate_subject st e req s ≡ allow e.policy_id
  unfolding evaluate_subject
  evaluate_subject_complete e req s s' h =
      let (u, found) = h.known in
      let named : is_empty req.subject ≡ false = is_empty-false req.subject h.named in
      rw named (rw found (node_evidence_complete (e.node_evidence) e req refl h.node))
