-- ===== src/Nodeevidence/Enrollment/Normal.antt =====
-- internal/nodeevidence/enrollment.go: a request that is normalised stays as it is.
use openbao_attested_unseal.Prelude.{
  ◌≡◌, refl, sym, ap, ◌∙◌, inl, inr, false, not, List, [], ◌∷◌, ◌++◌, arith, All, is_nil, length,
  drop, Bool-cases, ◌||◌, ◌==◌,
}
use openbao_attested_unseal.Prelude.Result.{
  ok, other, invalid_enrollment, guard, wrap_err, or_err, >>=-ok, >>-ok, guard-ok, wrap_err-ok,
}
use openbao_attested_unseal.Prelude.Text.{Text, codes, text_eq, text_eq_iff, is_empty, has_prefix}
use openbao_attested_unseal.Prelude.Trim.{trim_space, trim_space_idem}
use openbao_attested_unseal.Prelude.Hex.{encode_hex, decode_hex}
use openbao_attested_unseal.Prelude.Order.{
  text_leb, text_leb_total, sort, insert_sorted, sort-IsSorted, sort-sorted, is_nil-sort,
}
use openbao_attested_unseal.Tpm.Library.{TpmLibrary}
use openbao_attested_unseal.Tpm.Policy.{validate_policy}
use openbao_attested_unseal.Broker.Subjects.{has_text}
use openbao_attested_unseal.Nodeevidence.Evidence.{provider_tpm2_quote, is_zero_time}
use openbao_attested_unseal.Nodeevidence.Enrollment.{
  EnrollmentRequest, canonical_sha256_digest, canonical_hashes, trimmed_request,
  check_enrollment_request, normalize_enrollment_request,
}

abbrev pub IsCanonical : Text → Type 0
IsCanonical t = canonical_sha256_digest t ≡ ok t

pub canonical_sha256_digest-eq :
    (value canonical : Text) → canonical_sha256_digest value ≡ ok canonical → canonical ≡ value
unfolding canonical_sha256_digest
canonical_sha256_digest-eq value canonical h =
    let (_, h1) = >>-ok (guard (has_prefix value (codes "sha256:")) other) _ h in
    let (raw, _, h2) = >>=-ok (or_err (decode_hex (drop 7 value)) other) _ h1 in
    let (_, h3) = >>-ok (guard (length raw == 32) other) _ h2 in
    let made = codes "sha256:" ++ encode_hex raw in
    let (same, h4) = >>-ok (guard (text_eq made value) other) _ h3 in
    let equal : made ≡ value =
      (text_eq_iff made value).0 (guard-ok (text_eq made value) other same) in
    let given : made ≡ canonical = cc in sym given ∙ equal

-- No element is among those seen before it.
abbrev pub Fresh : List Text → List Text → Type 0
Fresh seen [] = Unit {0}
Fresh seen (t ∷ ts) = (has_text t seen ≡ false) × Fresh (t ∷ seen) ts

pub canonical_hashes-ok :
    (seen values hashes : List Text)
    → canonical_hashes seen values ≡ ok hashes
    → (hashes ≡ values) × All IsCanonical values × Fresh seen values
unfolding canonical_hashes
canonical_hashes-ok seen [] hashes h = (cc, tt, tt)
canonical_hashes-ok seen (v ∷ vs) hashes h =
    let (c, h1, k1) = >>=-ok (wrap_err (canonical_sha256_digest v) invalid_enrollment) _ h in
    let (h2, k2) = >>-ok (guard (not (has_text c seen)) invalid_enrollment) _ k1 in
    let (rest, h3, k3) = >>=-ok (canonical_hashes (c ∷ seen) vs) _ k2 in
    let (same, canonical, fresh) = canonical_hashes-ok (c ∷ seen) vs rest h3 in
    let made = wrap_err-ok (canonical_sha256_digest v) invalid_enrollment h1 in
    let equal : c ≡ v = canonical_sha256_digest-eq v c made in
    let new : has_text c seen ≡ false =
      ground (arith, guard-ok (not (has_text c seen)) invalid_enrollment h2) in
    (
      cc,
      (made ∙ ap ok equal, canonical),
      (ap (λ t. has_text t seen) (sym equal) ∙ new, rw equal at fresh),
    )

pub canonical_hashes-Fresh :
    (seen values : List Text)
    → All IsCanonical values
    → Fresh seen values
    → canonical_hashes seen values ≡ ok values
unfolding canonical_hashes
canonical_hashes-Fresh seen [] a f = refl
canonical_hashes-Fresh seen (v ∷ vs) a f =
    rw (a.0, f.0, canonical_hashes-Fresh (v ∷ seen) vs a.1 f.1)

pub has_text-cons :
    (t u : Text) (us : List Text) → has_text t (u ∷ us) ≡ (text_eq u t || has_text t us)
unfolding has_text
has_text-cons t u us = ground arith

Fresh-seen :
    (seen seen' values : List Text)
    → ((t : Text) → has_text t seen' ≡ has_text t seen)
    → Fresh seen values
    → Fresh seen' values
unfolding has_text
Fresh-seen seen seen' [] same f = tt
Fresh-seen seen seen' (v ∷ vs) same f =
    (same v ∙ f.0, Fresh-seen (v ∷ seen) (v ∷ seen') vs (λ t. ground (arith, same t)) f.1)

insert_sorted-Fresh :
    (seen values : List Text) (t : Text)
    → has_text t seen ≡ false
    → Fresh (t ∷ seen) values
    → Fresh seen (insert_sorted text_leb t values)
unfolding insert_sorted has_text
insert_sorted-Fresh seen [] t new f = (new, tt)
insert_sorted-Fresh seen (v ∷ vs) t new f = elim (Bool-cases (text_leb t v)) [
  | inl e ↦ rw e (new, f)
  | inr e ↦ rw e (
    ground (arith, f.0),
    insert_sorted-Fresh (v ∷ seen) vs t (ground (arith, f.0, text_eq_iff v t, text_eq_iff t v))
        (Fresh-seen (v ∷ t ∷ seen) (t ∷ v ∷ seen) vs (λ u. ground arith) f.1),
  )
]

sort-Fresh : (seen values : List Text) → Fresh seen values → Fresh seen (sort text_leb values)
unfolding sort
sort-Fresh seen [] f = tt
sort-Fresh seen (v ∷ vs) f =
    insert_sorted-Fresh seen (sort text_leb vs) v f.0 (sort-Fresh (v ∷ seen) vs f.1)

insert_sorted-All {κ} :
    (P : Text → Type κ) (t : Text) (values : List Text)
    → P t
    → All P values
    → All P (insert_sorted text_leb t values)
unfolding insert_sorted
insert_sorted-All P t [] p a = (p, tt)
insert_sorted-All P t (v ∷ vs) p a = elim (Bool-cases (text_leb t v)) [
  | inl e ↦ rw e (p, a)
  | inr e ↦ rw e (a.0, insert_sorted-All P t vs p a.1)
]

sort-All {κ} :
    (P : Text → Type κ) (values : List Text) → All P values → All P (sort text_leb values)
unfolding sort
sort-All P [] a = tt
sort-All P (v ∷ vs) a = insert_sorted-All P v (sort text_leb vs) a.0 (sort-All P vs a.1)

module _ (x : TpmLibrary) where
  -- What the checks of a request whose names are trimmed leave of it.
  pub check_enrollment_request-ok :
      (r n : EnrollmentRequest)
      → check_enrollment_request x r ≡ ok n
      → (n ≡ record r {
        publisher_certificate_hashes = sort text_leb r.publisher_certificate_hashes;
      })
        × (check_enrollment_request x n ≡ ok n)
  unfolding check_enrollment_request
  check_enrollment_request-ok r n h =
      let hashes = r.publisher_certificate_hashes in
      let (h1, k1) =
        >>-ok
          (guard (not (is_empty r.cluster_id || (is_empty r.node_name || is_empty r.node_uid)))
            invalid_enrollment)
          _ h in
      let (h2, k2) =
        >>-ok (guard (text_eq r.provider provider_tpm2_quote) invalid_enrollment) _ k1 in
      let (h3, k3) =
        >>-ok
          (guard (not (is_empty (trim_space (r.tpm_policy).enrolled_ak_public_hash)))
            invalid_enrollment)
          _ k2 in
      let (h4, k4) = >>-ok (wrap_err (validate_policy x r.tpm_policy) invalid_enrollment) _ k3 in
      let (h5, k5) = >>-ok (guard (not (is_nil hashes)) invalid_enrollment) _ k4 in
      let (kept, h6, k6) = >>=-ok (canonical_hashes [] hashes) _ k5 in
      let (h7, k7) = >>-ok (guard (not (is_zero_time r.enrolled_at)) invalid_enrollment) _ k6 in
      let (same, canonical, fresh) = canonical_hashes-ok [] hashes kept h6 in
      let made : n ≡ record r { publisher_certificate_hashes = sort text_leb hashes } = cc in
      let again : canonical_hashes [] (sort text_leb hashes) ≡ ok (sort text_leb hashes) =
        canonical_hashes-Fresh [] (sort text_leb hashes) (sort-All IsCanonical hashes canonical)
          (sort-Fresh [] hashes fresh) in
      let still : sort text_leb (sort text_leb hashes) ≡ sort text_leb hashes =
        sort-sorted text_leb (sort text_leb hashes)
          (sort-IsSorted text_leb text_leb_total hashes) in
      (made, rw made (rw (h1, h2, h3, h4, is_nil-sort text_leb hashes, h5, again, h7, still)))

  -- A request that is normalised stays as it is.
  pub normalize_enrollment_request_idem :
      (r n : EnrollmentRequest)
      → normalize_enrollment_request x r ≡ ok n
      → normalize_enrollment_request x n ≡ ok n
  unfolding normalize_enrollment_request
  normalize_enrollment_request_idem r n h =
      let (made, checked) = check_enrollment_request-ok (trimmed_request r) n h in
      let trimmed : trimmed_request n ≡ n = rw made (
        rw (
          trim_space_idem r.cluster_id,
          trim_space_idem r.node_name,
          trim_space_idem r.node_uid,
          trim_space_idem r.provider,
        )) in
      ap (check_enrollment_request x) trimmed ∙ checked
