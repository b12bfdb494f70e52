-- ===== src/Tpm/Quote/Sound.antt =====
-- internal/tpm/quote.go: what a verified quote shows.
use openbao_attested_unseal.Prelude.{
  ◌≡◌, ◌↔◌, refl, sym, ap, ◌∙◌, true, false, not, List, [], ◌∷◌, some, arith,
}
use openbao_attested_unseal.Prelude.Int.{ℤ, eqb_ℤ}
use openbao_attested_unseal.Prelude.Result.{
  ok, quote_verification, guard, wrap_err, >>=-ok, >>-ok, guard-ok, wrap_err-ok, or_err, or_err-ok,
}
use openbao_attested_unseal.Prelude.Text.{Text, text_eq, text_eq_iff, text_eq_refl, is_empty}
use openbao_attested_unseal.Tpm.Library.{
  TpmLibrary, AttestationData, QuoteInfo, Signature, PublicKey,
}
use openbao_attested_unseal.Tpm.Pcr.{
  PcrSelection, PcrValues, decode_pcr_values, same_pcrs, same_selection, normalize,
  compute_pcr_digest, digest_string, selection_from_legacy,
}
use openbao_attested_unseal.Tpm.Quote.Signed.{IsSigned, verify_signature-ok}
use openbao_attested_unseal.Tpm.Quote.{
  TpmEvidence, QuoteClaims, nonce_digest, public_digest, validate_evidence, verify_nonce_hash,
  verify_signature, verify_ak_signature, verify_attestation, verify_attested_pcrs, verify_quote,
}

eqb_ℤ-eq : (a b : ℤ) → eqb_ℤ a b ≡ true → a ≡ b
eqb_ℤ-eq a b h = ground arith

same_pcrs-eq : (ps qs : List ℤ) → same_pcrs ps qs ≡ true → ps ≡ qs
unfolding same_pcrs
same_pcrs-eq [] [] h = refl
same_pcrs-eq [] (q ∷ qs) h = cc
same_pcrs-eq (p ∷ ps) [] h = cc
same_pcrs-eq (p ∷ ps) (q ∷ qs) h = ground (arith, eqb_ℤ-eq p q, same_pcrs-eq ps qs)

same_pcrs_refl : (ps : List ℤ) → same_pcrs ps ps ≡ true
unfolding same_pcrs
same_pcrs_refl [] = refl
same_pcrs_refl (p ∷ ps) = ground (arith, same_pcrs_refl ps)

pub same_selection_iff : (a b : PcrSelection) → (same_selection a b ≡ true) ↔ (a ≡ b)
unfolding same_selection
same_selection_iff a b = (
  λ h. ground (arith, text_eq_iff a.hash b.hash, same_pcrs-eq a.pcrs b.pcrs),
  λ e. rw e (rw (text_eq_refl b.hash) (same_pcrs_refl b.pcrs)),
)

module _ (x : TpmLibrary) where
  -- The facts that a verified quote establishes: the evidence is well formed and names the expected
  -- nonce, the key of the evidence signed the quote, the quote attests that nonce, and it attests the
  -- digest of the selected PCR values.
  pub record IsQuoted (e : TpmEvidence) (nonce : Text) (c : QuoteClaims) : Type 0 where
    pub well_formed : validate_evidence x e ≡ ok tt
    pub nonce_given : is_empty nonce ≡ false
    pub names_nonce : e.nonce_hash ≡ nonce_digest x nonce
    pub claims_nonce : c.nonce_hash ≡ e.nonce_hash
    pub key : PublicKey
    pub signature : Signature
    pub has_key : x.decode_public e.ak_public ≡ ok key
    pub has_signature : x.decode_signature e.signature ≡ ok signature
    pub signed : verify_signature x key signature e.quote ≡ ok tt
    pub authentic : IsSigned x key signature e.quote
    pub fingerprint : c.ak_public_hash ≡ public_digest x e.ak_public
    pub attestation : AttestationData
    pub info : QuoteInfo
    pub attests : x.decode_attestation e.quote ≡ ok attestation
    pub a_quote : attestation.is_quote ≡ true
    pub attests_nonce : attestation.extra_data ≡ nonce
    pub has_info : attestation.quote_info ≡ some info
    pub attests_selection :
        normalize x (selection_from_legacy x info.selection) ≡ ok c.pcr_selection
    pub selected : normalize x e.pcr_selection ≡ ok c.pcr_selection
    pub values : PcrValues
    pub has_values : decode_pcr_values e.pcr_values ≡ ok values
    pub attests_digest : compute_pcr_digest x c.pcr_selection values ≡ ok info.pcr_digest
    pub claims_digest : c.pcr_digest ≡ digest_string x c.pcr_selection.hash info.pcr_digest

  verify_attestation-ok :
      (e : TpmEvidence) (nonce : Text) (q : QuoteInfo)
      → verify_attestation x e nonce ≡ ok q
      → (a : AttestationData) × (x.decode_attestation e.quote ≡ ok a)
        × (a.is_quote ≡ true)
        × (a.extra_data ≡ nonce)
        × (a.quote_info ≡ some q)
  unfolding verify_attestation
  verify_attestation-ok e nonce q h =
      let (a, decoded, h1) =
        >>=-ok (wrap_err (x.decode_attestation e.quote) quote_verification) _ h in
      let (quoted, h2) = >>-ok (guard (a.is_quote) quote_verification) _ h1 in
      let (q', held, h3) = >>=-ok (or_err a.quote_info quote_verification) _ h2 in
      let (same, h4) = >>-ok (guard (text_eq a.extra_data nonce) quote_verification) _ h3 in
      (
        a,
        wrap_err-ok (x.decode_attestation e.quote) quote_verification decoded,
        guard-ok (a.is_quote) quote_verification quoted,
        (text_eq_iff a.extra_data nonce).0
            (guard-ok (text_eq a.extra_data nonce) quote_verification same),
        cc (or_err-ok a.quote_info quote_verification held),
      )

  verify_ak_signature-ok :
      (e : TpmEvidence) (fingerprint : Text)
      → verify_ak_signature x e ≡ ok fingerprint
      → (key : PublicKey) × (s : Signature) × (x.decode_public e.ak_public ≡ ok key)
        × (x.decode_signature e.signature ≡ ok s)
        × (verify_signature x key s e.quote ≡ ok tt)
        × (fingerprint ≡ public_digest x e.ak_public)
  unfolding verify_ak_signature
  verify_ak_signature-ok e fingerprint h =
      let (key, known, h1) =
        >>=-ok (wrap_err (x.decode_public e.ak_public) quote_verification) _ h in
      let (s, read, h2) =
        >>=-ok (wrap_err (x.decode_signature e.signature) quote_verification) _ h1 in
      let (signed, h3) = >>-ok (verify_signature x key s e.quote) _ h2 in
      (
        key,
        s,
        wrap_err-ok (x.decode_public e.ak_public) quote_verification known,
        wrap_err-ok (x.decode_signature e.signature) quote_verification read,
        signed,
        cc,
      )

  verify_attested_pcrs-ok :
      (e : TpmEvidence) (q : QuoteInfo) (s : PcrSelection) (d : Text)
      → verify_attested_pcrs x e q ≡ ok (s, d)
      → (values : PcrValues) × (normalize x (selection_from_legacy x q.selection) ≡ ok s)
        × (normalize x e.pcr_selection ≡ ok s)
        × (decode_pcr_values e.pcr_values ≡ ok values)
        × (compute_pcr_digest x s values ≡ ok q.pcr_digest)
        × (d ≡ q.pcr_digest)
  unfolding verify_attested_pcrs
  verify_attested_pcrs-ok e q s d h =
      let legacy = selection_from_legacy x q.selection in
      let (quoted, h1, k1) = >>=-ok (wrap_err (normalize x legacy) quote_verification) _ h in
      let (s', h2, k2) = >>=-ok (normalize x e.pcr_selection) _ k1 in
      let (h3, k3) = >>-ok (guard (same_selection quoted s') quote_verification) _ k2 in
      let (values, h4, k4) =
        >>=-ok (wrap_err (decode_pcr_values e.pcr_values) quote_verification) _ k3 in
      let (d', h5, k5) =
        >>=-ok (wrap_err (compute_pcr_digest x s' values) quote_verification) _ k4 in
      let (h6, k6) = >>-ok (guard (text_eq q.pcr_digest d') quote_verification) _ k5 in
      let same_s : s' ≡ s = cc in
      let same_d : d' ≡ d = cc in
      let equal : quoted ≡ s' =
        (same_selection_iff quoted s').0
          (guard-ok (same_selection quoted s') quote_verification h3) in
      let digest : q.pcr_digest ≡ d' =
        (text_eq_iff q.pcr_digest d').0
          (guard-ok (text_eq q.pcr_digest d') quote_verification h6) in
      (
        values,
        wrap_err-ok (normalize x legacy) quote_verification h1 ∙ ap ok (equal ∙ same_s),
        h2 ∙ ap ok same_s,
        wrap_err-ok (decode_pcr_values e.pcr_values) quote_verification h4,
        ap (λ t. compute_pcr_digest x t values) (sym same_s)
            ∙ (wrap_err-ok (compute_pcr_digest x s' values) quote_verification h5
                ∙ ap ok (sym digest)),
        sym same_d ∙ sym digest,
      )

  -- Where VerifyQuote accepts evidence for a nonce, the evidence is well formed and names the nonce's
  -- digest, the key that it carries signed the quote, with RSASSA, RSAPSS or ECDSA over the quote hashed
  -- with the algorithm that the signature names, the quote attests that nonce, its PCR selection is that
  -- of the evidence, and its digest is that of the presented PCR values.
  pub verify_quote-ok :
      (e : TpmEvidence) (nonce : Text) (c : QuoteClaims)
      → verify_quote x e nonce ≡ ok c
      → IsQuoted e nonce c
  unfolding verify_quote verify_nonce_hash
  verify_quote-ok e nonce c h =
      let (valid, k1) = >>-ok (validate_evidence x e) _ h in
      let (bound, k2) = >>-ok (verify_nonce_hash x e nonce) _ k1 in
      let (given, named) = >>-ok (guard (not (is_empty nonce)) quote_verification) _ bound in
      let (fingerprint, h3, k3) = >>=-ok (verify_ak_signature x e) _ k2 in
      let (q, h4, k4) = >>=-ok (verify_attestation x e nonce) _ k3 in
      let ((s, d), h5, k5) = >>=-ok (verify_attested_pcrs x e q) _ k4 in
      let (key, sig, has_key, has_signature, signed, print) =
        verify_ak_signature-ok e fingerprint h3 in
      let (a, attests, a_quote, extra, info) = verify_attestation-ok e nonce q h4 in
      let (values, quoted, selected, decoded, digest, same) = verify_attested_pcrs-ok e q s d h5 in
      let claims : record {
        ak_public_hash = fingerprint;
        pcr_selection = s;
        pcr_digest = digest_string x s.hash d;
        nonce_hash = e.nonce_hash;
      }
          ≡ c =
        cc in
      rw (← claims) (record {
        well_formed = valid;
        nonce_given = ground (arith, guard-ok (not (is_empty nonce)) quote_verification given);
        names_nonce =
            (text_eq_iff e.nonce_hash (nonce_digest x nonce)).0
              (guard-ok (text_eq e.nonce_hash (nonce_digest x nonce)) quote_verification named);
        claims_nonce = refl;
        key = key;
        signature = sig;
        has_key = has_key;
        has_signature = has_signature;
        signed = signed;
        authentic = verify_signature-ok x key sig e.quote signed;
        fingerprint = print;
        attestation = a;
        info = q;
        attests = attests;
        a_quote = a_quote;
        attests_nonce = extra;
        has_info = info;
        attests_selection = quoted;
        selected = selected;
        values = values;
        has_values = decoded;
        attests_digest = digest;
        claims_digest = ap (digest_string x s.hash) same;
      })
