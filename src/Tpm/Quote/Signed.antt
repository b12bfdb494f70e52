-- ===== src/Tpm/Quote/Signed.antt =====
-- internal/tpm/quote.go: what a signature that verifySignature accepts is made of.
use openbao_attested_unseal.Prelude.{
  ◌≡◌, refl, ◌⊎◌, inl, inr, ℕ, Bool, true, false, Option, none, some, if◌then◌else◌,
}
use openbao_attested_unseal.Prelude.Result.{
  ok, err, quote_verification, wrap_err, >>=-ok, guard-ok, wrap_err-ok,
}
use openbao_attested_unseal.Prelude.Text.{Text}
use openbao_attested_unseal.Tpm.Library.{
  TpmLibrary, Algorithm, alg_sha1, alg_sha256, alg_sha384, alg_sha512, alg_rsassa, alg_rsapss,
  alg_ecdsa, alg_other, SignatureRsa, SignatureEcc, Signature, PublicKey, rsa_key, ecdsa_key,
  other_key,
}
use openbao_attested_unseal.Tpm.Quote.{
  hash_message, verify_rsa_signature, verify_ecdsa_signature, verify_signature,
}

module _ (x : TpmLibrary) where
  -- An RSA key accepts a signature that is present, on the message hashed with the signature's own
  -- algorithm.
  abbrev pub IsRsaSigned : PublicKey → Option SignatureRsa → Text → Bool → Type 0
  IsRsaSigned key signature message pss =
      (k : Text) × (r : SignatureRsa) × (hash : ℕ) × (key ≡ rsa_key k)
      × (signature ≡ some r)
      × (x.hash_of r.hash_alg ≡ ok hash)
      × ((if pss
            then x.verify_pss k hash (x.hash_sum hash message) r.signature
            else x.verify_pkcs1v15 k hash (x.hash_sum hash message) r.signature)
          ≡ true)

  -- An ECDSA key accepts a signature that is present, on the message hashed with the signature's own
  -- algorithm.
  abbrev pub IsEcdsaSigned : PublicKey → Option SignatureEcc → Text → Type 0
  IsEcdsaSigned key signature message =
      (k : Text) × (e : SignatureEcc) × (hash : ℕ) × (key ≡ ecdsa_key k)
      × (signature ≡ some e)
      × (x.hash_of e.hash_alg ≡ ok hash)
      × (x.verify_ecdsa k (x.hash_sum hash message) e.r e.s ≡ true)

  -- The key signed the message with one of the three algorithms.
  abbrev pub IsSigned : PublicKey → Signature → Text → Type 0
  IsSigned key s message =
      ((s.alg ≡ alg_rsassa) × IsRsaSigned key s.rsa message false)
      ⊎ (((s.alg ≡ alg_rsapss) × IsRsaSigned key s.rsa message true)
          ⊎ ((s.alg ≡ alg_ecdsa) × IsEcdsaSigned key s.ecc message))

  hash_message-ok :
      (alg : Algorithm) (message : Text) (hash : ℕ) (digest : Text)
      → hash_message x alg message ≡ ok (hash, digest)
      → (x.hash_of alg ≡ ok hash) × (digest ≡ x.hash_sum hash message)
  unfolding hash_message
  hash_message-ok alg message hash digest h =
      let (found, known, same) = >>=-ok (x.hash_of alg) _ h in (cc, cc)

  verify_rsa_signature-ok :
      (key : PublicKey) (signature : Option SignatureRsa) (message : Text) (pss : Bool)
      → verify_rsa_signature x key signature message pss ≡ ok tt
      → IsRsaSigned key signature message pss
  unfolding verify_rsa_signature
  verify_rsa_signature-ok key none message pss h = cc
  verify_rsa_signature-ok (rsa_key k) (some r) message pss h =
      let ((hash, digest), hashed, passed) =
        >>=-ok (wrap_err (hash_message x r.hash_alg message) quote_verification) _ h in
      let (known, same) =
        hash_message-ok r.hash_alg message hash digest
          (wrap_err-ok (hash_message x r.hash_alg message) quote_verification hashed) in
      (k, r, hash, refl, refl, known, rw (← same) (guard-ok _ quote_verification passed))
  verify_rsa_signature-ok (ecdsa_key k) (some r) message pss h =
      let (_, _, passed) =
        >>=-ok (wrap_err (hash_message x r.hash_alg message) quote_verification) _ h in
      cc passed
  verify_rsa_signature-ok other_key (some r) message pss h =
      let (_, _, passed) =
        >>=-ok (wrap_err (hash_message x r.hash_alg message) quote_verification) _ h in
      cc passed

  verify_ecdsa_signature-ok :
      (key : PublicKey) (signature : Option SignatureEcc) (message : Text)
      → verify_ecdsa_signature x key signature message ≡ ok tt
      → IsEcdsaSigned key signature message
  unfolding verify_ecdsa_signature
  verify_ecdsa_signature-ok key none message h = cc
  verify_ecdsa_signature-ok (ecdsa_key k) (some e) message h =
      let ((hash, digest), hashed, passed) =
        >>=-ok (wrap_err (hash_message x e.hash_alg message) quote_verification) _ h in
      let (known, same) =
        hash_message-ok e.hash_alg message hash digest
          (wrap_err-ok (hash_message x e.hash_alg message) quote_verification hashed) in
      (k, e, hash, refl, refl, known, rw (← same) (guard-ok _ quote_verification passed))
  verify_ecdsa_signature-ok (rsa_key k) (some e) message h =
      let (_, _, passed) =
        >>=-ok (wrap_err (hash_message x e.hash_alg message) quote_verification) _ h in
      cc passed
  verify_ecdsa_signature-ok other_key (some e) message h =
      let (_, _, passed) =
        >>=-ok (wrap_err (hash_message x e.hash_alg message) quote_verification) _ h in
      cc passed

  Algorithm-cases :
      (a : Algorithm)
      → ((a ≡ alg_rsassa) ⊎ ((a ≡ alg_rsapss) ⊎ (a ≡ alg_ecdsa)))
        ⊎ ((key : PublicKey) (s : Signature) (message : Text)
            → s.alg ≡ a
            → verify_signature x key s message ≡ err quote_verification)
  unfolding verify_signature
  Algorithm-cases alg_rsassa = inl (inl refl)
  Algorithm-cases alg_rsapss = inl (inr (inl refl))
  Algorithm-cases alg_ecdsa = inl (inr (inr refl))
  Algorithm-cases alg_sha1 = inr (λ key s message e. rw (e, verify_signature) refl)
  Algorithm-cases alg_sha256 = inr (λ key s message e. rw (e, verify_signature) refl)
  Algorithm-cases alg_sha384 = inr (λ key s message e. rw (e, verify_signature) refl)
  Algorithm-cases alg_sha512 = inr (λ key s message e. rw (e, verify_signature) refl)
  Algorithm-cases (alg_other n) = inr (λ key s message e. rw (e, verify_signature) refl)

  pub verify_signature-ok :
      (key : PublicKey) (s : Signature) (message : Text)
      → verify_signature x key s message ≡ ok tt
      → IsSigned key s message
  unfolding verify_signature
  verify_signature-ok key s message h = elim (Algorithm-cases (s.alg)) [
    | inl (inl e) ↦
        inl (e, verify_rsa_signature-ok key s.rsa message false (rw (e, verify_signature) at h))
    | inl (inr (inl e)) ↦
        inr
          (inl (e, verify_rsa_signature-ok key s.rsa message true (rw (e, verify_signature) at h)))
    | inl (inr (inr e)) ↦
        inr (inr (e, verify_ecdsa_signature-ok key s.ecc message (rw (e, verify_signature) at h)))
    | inr refused ↦ cc (refused key s message refl)
  ]
