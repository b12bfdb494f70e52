-- ===== src/Tpm/Policy/Enroll.antt =====
-- internal/tpm/pcr.go and policy.go: a PCR policy that NewPCRPolicy makes is valid.
use openbao_attested_unseal.Prelude.{◌≡◌, ap, ◌∙◌, arith}
use openbao_attested_unseal.Prelude.Result.{ok, ◌>>=◌, >>=-ok}
use openbao_attested_unseal.Prelude.Text.{Text, text_eq_refl}
use openbao_attested_unseal.Tpm.Library.{TpmLibrary, TpmLaws, size}
use openbao_attested_unseal.Tpm.Pcr.{
  PcrSelection, PcrValues, PcrPolicy, hash_name, new_hash, hash_digest_size, normalize,
  write_values, compute_pcr_digest, digest_string, new_pcr_policy,
}
use openbao_attested_unseal.Tpm.Pcr.Normal.{
  IsNormal, normalize-ok, normalize-IsNormal, new_hash-hash_name, parse_digest_string-digest_string,
}
use openbao_attested_unseal.Tpm.Policy.{validate_pcr_policy}

module _ (x : TpmLibrary) (laws : TpmLaws x) where
  -- A digest is the sum, by the hash of the bank, of what the values write.
  pub compute_pcr_digest-ok :
      (s n : PcrSelection) (values : PcrValues) (d : Text)
      → normalize x s ≡ ok n
      → (normal : IsNormal x n) → compute_pcr_digest x s values ≡ ok d
      → (written : Text) × (write_values (size normal.alg) values n.pcrs ≡ ok written)
        × (d ≡ x.sum normal.alg written)
  unfolding compute_pcr_digest hash_digest_size
  compute_pcr_digest-ok s n values d e normal h =
      let named : new_hash x n.hash ≡ ok normal.alg =
        ap (new_hash x) normal.named ∙ new_hash-hash_name x normal.alg in
      let sums_up : (do w ← write_values (size normal.alg) values n.pcrs; ok (x.sum normal.alg w))
          ≡ ok d =
        rw (e, named) at h in
      let (written, found, sums) =
        >>=-ok (write_values (size normal.alg) values n.pcrs) _ sums_up in
      (written, found, cc)

  -- A PCR policy that is made of observed values passes Validate.
  pub validate_pcr_policy-new_pcr_policy :
      (s : PcrSelection) (values : PcrValues) (profile : Text) (p : PcrPolicy)
      → new_pcr_policy x s values profile ≡ ok p
      → validate_pcr_policy x p ≡ ok tt
  unfolding new_pcr_policy validate_pcr_policy hash_digest_size
  validate_pcr_policy-new_pcr_policy s values profile p e =
      let (d, computed, e1) = >>=-ok (compute_pcr_digest x s values) _ e in
      let (n, normalized, e2) = >>=-ok (normalize x s) _ e1 in
      let normal = normalize-ok x laws s n normalized in
      let (written, found, sums) = compute_pcr_digest-ok s n values d normalized normal computed in
      let selection : p.selection ≡ n = cc in
      let expected : p.expected_digest ≡ digest_string x (hash_name normal.alg) d =
        cc (normal.named) in
      rw
        (
          selection,
          normalize-IsNormal x n normal,
          expected,
          sums,
          parse_digest_string-digest_string x laws normal.alg (x.sum normal.alg written)
              (laws.sum-IsByte normal.alg written),
          normal.named,
          text_eq_refl (hash_name normal.alg),
          new_hash-hash_name x normal.alg,
          laws.length-sum normal.alg written,
        )
        (ground arith)
