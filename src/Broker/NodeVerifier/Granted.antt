-- ===== src/Broker/NodeVerifier/Granted.antt =====
-- internal/broker/node_evidence_authorization.go and node_evidence_verifier.go: what a grant and a
-- verified submission rest on.
use openbao_attested_unseal.Prelude.{
  ◌≡◌, ◌≢◌, refl, ap, ◌∙◌, inl, inr, true, false, not, Option, none, some, arith, Bool-cases, ◌&&◌,
  length, ltb,
}
use openbao_attested_unseal.Prelude.Result.{
  Error, Result, ok, err, evidence_verification, guard, wrap_err, >>=-ok, >>-ok, guard-ok,
  wrap_err-ok,
}
use openbao_attested_unseal.Prelude.Text.{Text, text_eq, text_eq_iff}
use openbao_attested_unseal.Prelude.Trim.{trim_space}
use openbao_attested_unseal.Broker.Policy.{NodeEvidence}
use openbao_attested_unseal.Tpm.Library.{TpmLibrary}
use openbao_attested_unseal.Tpm.Quote.{TpmEvidence}
use openbao_attested_unseal.Tpm.Policy.{Claims, evaluate_policy}
use openbao_attested_unseal.Nodeevidence.Evidence.{
  Submission, provider_fake_local, provider_tpm2_quote,
}
use openbao_attested_unseal.Nodeevidence.Enrollment.{
  Enrollment, authorizes_publisher, is_active_enrollment,
}
use openbao_attested_unseal.Broker.NodeVerifier.{
  granted, max_payload_size, format_tpm2_quote, enrollment_refusal, payload_hash,
  authorize_enrollment, authorize_publisher, read_evidence, verify_tpm, verify_provider,
  verify_submission,
}

enrollment_refusal-ne-granted :
    (x : Error) (enrollment : Option Enrollment) (publisher : Text)
    → enrollment_refusal x ≢ granted enrollment publisher
unfolding enrollment_refusal
enrollment_refusal-ne-granted x enrollment publisher h = ground arith

module _ (x : TpmLibrary) (unmarshal : Text → Result TpmEvidence) where
  authorize_enrollment-granted :
      (provider node_uid hash publisher : Text) (e : Enrollment) (enrollment : Option Enrollment)
      → authorize_enrollment x unmarshal provider node_uid e hash ≡ granted enrollment publisher
      → (enrollment ≡ some e)
        × (publisher ≡ hash)
        × (e.node_uid ≡ node_uid)
        × (authorizes_publisher e hash ≡ true)
  unfolding authorize_enrollment
  authorize_enrollment-granted provider node_uid hash publisher e enrollment h =
      elim (Bool-cases (text_eq e.provider provider && text_eq e.node_uid node_uid)) [
        | inr f ↦ cc (rw (f, authorize_enrollment) at h)
        | inl f ↦ elim (Bool-cases (authorizes_publisher e hash)) [
          | inr g ↦ cc (rw g at (rw (f, authorize_enrollment) at h))
          | inl g ↦
              let same : granted (some e) hash ≡ granted enrollment publisher =
                rw g at (rw (f, authorize_enrollment) at h) in
              (cc, cc, ground (arith, text_eq_iff e.node_uid node_uid), g)
        ]
      ]

  -- A TPM publisher is granted by an active enrollment only.
  pub authorize_publisher-granted :
      (certificate : Option Text) (node_uid publisher : Text) (found : Option (Result Enrollment))
      (enrollment : Option Enrollment)
      → authorize_publisher x unmarshal certificate provider_tpm2_quote node_uid found
        ≡ granted enrollment publisher
      → (raw : Text) × (e : Enrollment) × (certificate ≡ some raw)
        × (found ≡ some (ok e))
        × (enrollment ≡ some e)
        × (publisher ≡ payload_hash x unmarshal raw)
        × (e.node_uid ≡ node_uid)
        × (authorizes_publisher e publisher ≡ true)
  unfolding authorize_publisher text_eq
  authorize_publisher-granted none node_uid publisher found enrollment h = cc
  authorize_publisher-granted (some raw) node_uid publisher none enrollment h = cc
  authorize_publisher-granted (some raw) node_uid publisher (some (err y)) enrollment h =
      absurd (enrollment_refusal-ne-granted y enrollment publisher h)
  authorize_publisher-granted (some raw) node_uid publisher (some (ok e)) enrollment h =
      let (held, same, uid, permitted) =
        authorize_enrollment-granted provider_tpm2_quote node_uid (payload_hash x unmarshal raw)
          publisher e enrollment h in
      (raw, e, refl, refl, held, same, uid, ap (authorizes_publisher e) same ∙ permitted)

  -- What was verified of a TPM submission.
  pub record IsVerified (sub : Submission) (nonce : Text) (e : Enrollment) : Type 0 where
    pub evidence : TpmEvidence
    pub claims : Claims
    pub read : read_evidence x unmarshal sub.payload ≡ ok evidence
    pub same_challenge : evidence.challenge_id ≡ sub.challenge_id
    pub same_node : e.node_name ≡ sub.node_name
    pub same_cluster : e.cluster_id ≡ sub.cluster_id
    pub trusted : evaluate_policy x evidence nonce e.tpm_policy ≡ ok claims

  pub verify_tpm-ok :
      (sub : Submission) (nonce : Text) (e : Enrollment)
      → verify_tpm x unmarshal sub nonce e ≡ ok tt
      → IsVerified sub nonce e
  unfolding verify_tpm
  verify_tpm-ok sub nonce e h =
      let named =
        is_active_enrollment e
        && (text_eq e.node_name sub.node_name && text_eq e.cluster_id sub.cluster_id) in
      let (_, h1) =
        >>-ok (guard (text_eq sub.format format_tpm2_quote) evidence_verification) _ h in
      let (names, h2) = >>-ok (guard named evidence_verification) _ h1 in
      let (_, h3) =
        >>-ok (guard (text_eq (trim_space e.node_uid) sub.node_uid) evidence_verification) _ h2 in
      let (evidence, read, h4) =
        >>=-ok (wrap_err (read_evidence x unmarshal sub.payload) evidence_verification) _ h3 in
      let (bound, h5) =
        >>-ok (guard (text_eq evidence.challenge_id sub.challenge_id) evidence_verification) _ h4 in
      let (claims, trusted, h6) =
        >>=-ok (wrap_err (evaluate_policy x evidence nonce e.tpm_policy) evidence_verification) _
          h5 in
      let all_named : named ≡ true = guard-ok named evidence_verification names in
      record {
        evidence = evidence;
        claims = claims;
        read = wrap_err-ok (read_evidence x unmarshal sub.payload) evidence_verification read;
        same_challenge =
            (text_eq_iff evidence.challenge_id sub.challenge_id).0 (
              guard-ok (text_eq evidence.challenge_id sub.challenge_id) evidence_verification
                bound);
        same_node = ground (arith, text_eq_iff e.node_name sub.node_name);
        same_cluster = ground (arith, text_eq_iff e.cluster_id sub.cluster_id);
        trusted =
            wrap_err-ok (evaluate_policy x evidence nonce e.tpm_policy) evidence_verification
              trusted;
      }

pub verify_provider-tpm :
    (x : TpmLibrary) (unmarshal : Text → Result TpmEvidence) (sub : Submission) (nonce : Text)
    (e : Enrollment)
    → sub.provider ≡ provider_tpm2_quote
    → verify_provider x unmarshal sub nonce (some e) ≡ ok tt
    → verify_tpm x unmarshal sub nonce e ≡ ok tt
unfolding verify_provider text_eq
verify_provider-tpm x unmarshal sub nonce e provider h =
    let not_fake : text_eq sub.provider provider_fake_local ≡ false =
      ap (λ p. text_eq p provider_fake_local) provider in
    let tpm : text_eq sub.provider provider_tpm2_quote ≡ true =
      (text_eq_iff sub.provider provider_tpm2_quote).1 provider in
    rw tpm at (rw (not_fake, verify_provider) at h)

pub verify_submission-ok :
    (x : TpmLibrary) (unmarshal : Text → Result TpmEvidence) (sub : Submission) (nonce : Text)
    (enrollment : Option Enrollment) (e : NodeEvidence)
    → verify_submission x unmarshal sub nonce enrollment ≡ ok e
    → (verify_provider x unmarshal sub nonce enrollment ≡ ok tt)
      × (e.cluster_id ≡ sub.cluster_id)
      × (e.provider ≡ sub.provider)
      × (e.evidence_hash ≡ payload_hash x unmarshal sub.payload)
unfolding verify_submission
verify_submission-ok x unmarshal sub nonce enrollment e h =
    let (_, h1) =
      >>-ok (guard (not (ltb max_payload_size (length sub.payload))) evidence_verification) _ h in
    let (passed, h2) = >>-ok (verify_provider x unmarshal sub nonce enrollment) _ h1 in
    (passed, cc, cc, cc)
