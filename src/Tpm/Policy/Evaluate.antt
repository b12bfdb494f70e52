-- ===== src/Tpm/Policy/Evaluate.antt =====
-- internal/tpm/policy.go: what EvaluatePolicy asks for.
use openbao_attested_unseal.Prelude.{
  ◌≡◌, ◌↔◌, ◌⊎◌, refl, ap, inl, inr, true, false, Option, none, some, [], ◌∷◌, ◌||◌, arith,
  Bool-cases,
}
use openbao_attested_unseal.Prelude.Result.{
  Result, ok, err, attestation_policy, ◌>>◌, guard, >>=-ok, >>-ok, guard-ok,
}
use openbao_attested_unseal.Prelude.Text.{Text, text_eq, text_eq_iff, is_empty}
use openbao_attested_unseal.Tpm.Library.{TpmLibrary}
use openbao_attested_unseal.Tpm.Pcr.{PcrPolicy}
use openbao_attested_unseal.Tpm.Quote.{TpmEvidence, QuoteClaims, verify_quote}
use openbao_attested_unseal.Tpm.Quote.Sound.{same_selection_iff}
use openbao_attested_unseal.Tpm.Policy.{
  TpmPolicy, Claims, policy_mode_tpm_only, policy_mode_secure_boot, claims_of,
  verify_secure_boot_policy, evaluate_mode, validate_policy, evaluate_policy,
}

-- What the mode of a policy asks of the claims of a quote.
pub data Boots (q : QuoteClaims) (p : TpmPolicy) (c : Claims) : Type 0 where
  tpm_only : p.mode ≡ policy_mode_tpm_only → c ≡ claims_of q p false → Boots q p c
  secure_boot :
      (pcr : PcrPolicy)
      → p.mode ≡ policy_mode_secure_boot
      → p.pcr_policy ≡ some pcr
      → pcr.expected_digest ≡ q.pcr_digest
      → pcr.selection ≡ q.pcr_selection
      → c ≡ claims_of q p true
      → Boots q p c

verify_secure_boot_policy_iff :
    (q : QuoteClaims) (pcr : PcrPolicy)
    → (verify_secure_boot_policy q pcr ≡ ok tt)
      ↔ ((pcr.expected_digest ≡ q.pcr_digest) × (pcr.selection ≡ q.pcr_selection))
unfolding verify_secure_boot_policy
verify_secure_boot_policy_iff q pcr = (
  λ h. (
    ground (arith, text_eq_iff pcr.expected_digest q.pcr_digest),
    ground (arith, same_selection_iff pcr.selection q.pcr_selection),
  ),
  λ h. ground (
    arith,
    text_eq_iff pcr.expected_digest q.pcr_digest,
    same_selection_iff pcr.selection q.pcr_selection,
  ),
)

evaluate_pcrs :
    (q : QuoteClaims) (p : TpmPolicy) (c : Claims) (policy : Option PcrPolicy)
    → p.pcr_policy ≡ policy
    → p.mode ≡ policy_mode_secure_boot
    → (elim policy as (λ _. Result Claims) [
      | none ↦ err attestation_policy
      | some pcr ↦ do verify_secure_boot_policy q pcr; ok (claims_of q p true)
    ])
      ≡ ok c
    → Boots q p c
evaluate_pcrs q p c none held mode h = cc
evaluate_pcrs q p c (some pcr) held mode h =
    let (checked, done) = >>-ok (verify_secure_boot_policy q pcr) _ h in
    let (digest, selection) = (verify_secure_boot_policy_iff q pcr).0 checked in
    secure_boot pcr mode held digest selection (cc)

evaluate_mode-ok :
    (q : QuoteClaims) (p : TpmPolicy) (c : Claims) → evaluate_mode q p ≡ ok c → Boots q p c
unfolding evaluate_mode
evaluate_mode-ok q p c h = elim (Bool-cases (text_eq p.mode policy_mode_tpm_only)) [
  | inl e ↦ tpm_only ((text_eq_iff p.mode policy_mode_tpm_only).0 e) (cc (rw e at h))
  | inr e ↦ elim (Bool-cases (text_eq p.mode policy_mode_secure_boot)) [
    | inl f ↦
        evaluate_pcrs q p c p.pcr_policy refl ((text_eq_iff p.mode policy_mode_secure_boot).0 f)
          (rw (e, f) at h)
    | inr f ↦ cc (rw (e, f) at h)
  ]
]

evaluate_mode-Boots :
    (q : QuoteClaims) (p : TpmPolicy) (c : Claims) → Boots q p c → evaluate_mode q p ≡ ok c
unfolding evaluate_mode text_eq
evaluate_mode-Boots q p c (tpm_only mode e) =
    let chosen : text_eq p.mode policy_mode_tpm_only ≡ true =
      (text_eq_iff p.mode policy_mode_tpm_only).1 mode in
    rw (chosen, e)
evaluate_mode-Boots q p c (secure_boot pcr mode held digest selection e) =
    let passed_by : text_eq p.mode policy_mode_tpm_only ≡ false =
      ap (λ m. text_eq m policy_mode_tpm_only) mode in
    let chosen : text_eq p.mode policy_mode_secure_boot ≡ true =
      (text_eq_iff p.mode policy_mode_secure_boot).1 mode in
    let checked : verify_secure_boot_policy q pcr ≡ ok tt =
      (verify_secure_boot_policy_iff q pcr).1 (digest, selection) in
    rw (passed_by, chosen) (simp (held, checked, e))

module _ (x : TpmLibrary) where
  pub record IsTrusted (e : TpmEvidence) (nonce : Text) (p : TpmPolicy) (c : Claims) : Type 0 where
    pub valid : validate_policy x p ≡ ok tt
    pub claims : QuoteClaims
    pub verified : verify_quote x e nonce ≡ ok claims
    pub identity :
        (p.enrolled_ak_public_hash ≡ []) ⊎ (p.enrolled_ak_public_hash ≡ claims.ak_public_hash)
    pub boots : Boots claims p c

  identity_iff : (a b : Text) → ((is_empty a || text_eq a b) ≡ true) ↔ ((a ≡ []) ⊎ (a ≡ b))
  identity_iff [] b = (λ _. inl refl, λ _. refl)
  identity_iff (d ∷ a) b = (
    λ h. inr ((text_eq_iff (d ∷ a) b).0 h),
    λ h. elim h [ inl e ↦ cc | inr e ↦ (text_eq_iff (d ∷ a) b).1 e ],
  )

  -- EvaluatePolicy accepts evidence with some claims exactly where the policy is valid, the quote
  -- verifies for the nonce, the policy names no attestation key or the one that signed, and its mode
  -- is tpm-only, or secureboot with the digest and the selection of the quote; the claims are then
  -- those of the quote, with secure boot in the second mode only.
  pub evaluate_policy-ok :
      (e : TpmEvidence) (nonce : Text) (p : TpmPolicy) (c : Claims)
      → (evaluate_policy x e nonce p ≡ ok c) ↔ IsTrusted e nonce p c
  unfolding evaluate_policy
  evaluate_policy-ok e nonce p c = (
    λ h.
        let (valid, h1) = >>-ok (validate_policy x p) _ h in
        let (q, verified, h2) = >>=-ok (verify_quote x e nonce) _ h1 in
        let named =
          is_empty p.enrolled_ak_public_hash
          || text_eq p.enrolled_ak_public_hash q.ak_public_hash in
        let (named_ok, h3) = >>-ok (guard named attestation_policy) _ h2 in
        record {
          valid = valid;
          claims = q;
          verified = verified;
          identity =
              (identity_iff p.enrolled_ak_public_hash q.ak_public_hash).0
                (guard-ok named attestation_policy named_ok);
          boots = evaluate_mode-ok q p c h3;
        },
    λ t. rw (
      t.valid,
      t.verified,
      (identity_iff p.enrolled_ak_public_hash t.claims.ak_public_hash).1 t.identity,
      evaluate_mode-Boots t.claims p c t.boots,
    ),
  )
