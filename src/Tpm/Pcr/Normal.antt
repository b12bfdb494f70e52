-- ===== src/Tpm/Pcr/Normal.antt =====
-- internal/tpm/pcr.go: a selection that is normalised stays as it is, and a digest is read back.
use openbao_attested_unseal.Prelude.{
  ◌≡◌, refl, sym, ap, ◌∙◌, true, false, not, none, some, arith, inl, inr, Bool-cases, Option-cases,
  is_nil, All,
}
use openbao_attested_unseal.Prelude.Result.{ok, other, guard, >>=-ok, >>-ok, guard-ok}
use openbao_attested_unseal.Prelude.Int.{ℤ, leb_ℤ}
use openbao_attested_unseal.Prelude.Text.{Text, text_eq, text_eq_iff, is_empty}
use openbao_attested_unseal.Prelude.Case.{to_lower, to_lower_idem, is_ascii}
use openbao_attested_unseal.Prelude.Trim.{trim_space}
use openbao_attested_unseal.Prelude.Hex.{IsByte, encode_hex, decode_hex-encode_hex}
use openbao_attested_unseal.Prelude.Split.{cut-append, Lacks}
use openbao_attested_unseal.Prelude.Order.{sort, IsSorted, sort-IsSorted, sort-sorted, is_nil-sort}
use openbao_attested_unseal.Tpm.Library.{TpmLibrary, TpmLaws, HashAlg, sha1, sha256, sha384, sha512}
use openbao_attested_unseal.Tpm.Pcr.{
  PcrSelection, hash_name, known_hash, new_hash, bank, check_pcrs, normalize, digest_string,
  parse_digest_string,
}

leb_ℤ_total : (a b : ℤ) → leb_ℤ a b ≡ false → leb_ℤ b a ≡ true
leb_ℤ_total a b h = ground arith

known_hash-eq : (name : Text) (h : HashAlg) → known_hash name ≡ some h → name ≡ hash_name h
unfolding known_hash
known_hash-eq name h e = ground (
  arith,
  text_eq_iff name (hash_name sha1),
  text_eq_iff name (hash_name sha256),
  text_eq_iff name (hash_name sha384),
  text_eq_iff name (hash_name sha512),
)

hash_name-Lacks : (h : HashAlg) → Lacks b':' (hash_name h)
hash_name-Lacks sha1 = omega arith
hash_name-Lacks sha256 = omega arith
hash_name-Lacks sha384 = omega arith
hash_name-Lacks sha512 = omega arith

module _ (x : TpmLibrary) where
  pub lower-hash_name : (h : HashAlg) → to_lower x.lower (hash_name h) ≡ hash_name h
  unfolding to_lower is_ascii
  lower-hash_name sha1 = refl
  lower-hash_name sha256 = refl
  lower-hash_name sha384 = refl
  lower-hash_name sha512 = refl

  known_hash-hash_name : (h : HashAlg) → known_hash (hash_name h) ≡ some h
  unfolding known_hash text_eq
  known_hash-hash_name sha1 = refl
  known_hash-hash_name sha256 = refl
  known_hash-hash_name sha384 = refl
  known_hash-hash_name sha512 = refl

  pub new_hash-hash_name : (h : HashAlg) → new_hash x (hash_name h) ≡ ok h
  unfolding new_hash
  new_hash-hash_name h = rw (lower-hash_name h, known_hash-hash_name h)

  pub new_hash-ok :
      (name : Text) (h : HashAlg) → new_hash x name ≡ ok h → to_lower x.lower name ≡ hash_name h
  unfolding new_hash
  new_hash-ok name h e = elim (Option-cases (known_hash (to_lower x.lower name))) [
    | inl f ↦ cc
    | inr (g, f) ↦ known_hash-eq (to_lower x.lower name) h (cc)
  ]

  bank-hash_name : (h : HashAlg) → bank x (hash_name h) ≡ hash_name h
  unfolding bank trim_space to_lower is_ascii
  bank-hash_name sha1 = refl
  bank-hash_name sha256 = refl
  bank-hash_name sha384 = refl
  bank-hash_name sha512 = refl

  -- What Normalize gives: the name of a bank, and sorted indexes that pass its checks.
  pub record IsNormal (n : PcrSelection) : Type 0 where
    pub alg : HashAlg
    pub named : n.hash ≡ hash_name alg
    pub some_pcr : is_nil n.pcrs ≡ false
    pub checked : check_pcrs none n.pcrs ≡ ok tt
    pub sorted : IsSorted leb_ℤ n.pcrs

  -- A normal selection is left as it is.
  pub normalize-IsNormal : (n : PcrSelection) → IsNormal n → normalize x n ≡ ok n
  unfolding normalize
  normalize-IsNormal n h =
      rw
        (
          h.named,
          bank-hash_name h.alg,
          new_hash-hash_name h.alg,
          h.some_pcr,
          sort-sorted leb_ℤ n.pcrs h.sorted,
          h.checked,
        )
        refl

  module _ (laws : TpmLaws x) where
    bank-eq :
        (name : Text) (h : HashAlg) → new_hash x (bank x name) ≡ ok h → bank x name ≡ hash_name h
    unfolding bank
    bank-eq name h e = elim (Bool-cases (is_empty (to_lower x.lower (trim_space name)))) [
      | inl f ↦
          let same : new_hash x (hash_name sha256) ≡ ok h = rw f at e in
          rw f (cc (same, new_hash-hash_name sha256))
      | inr f ↦
          let found : new_hash x (to_lower x.lower (trim_space name)) ≡ ok h = rw f at e in
          rw f (
            sym (to_lower_idem x.lower (trim_space name) laws.lower_laws)
            ∙ new_hash-ok (to_lower x.lower (trim_space name)) h found)
    ]

    pub normalize-ok : (s n : PcrSelection) → normalize x s ≡ ok n → IsNormal n
    unfolding normalize
    normalize-ok s n e =
        let (alg, known, e1) = >>=-ok (new_hash x (bank x s.hash)) _ e in
        let (filled, e2) = >>-ok (guard (not (is_nil s.pcrs)) other) _ e1 in
        let (checked, e3) = >>-ok (check_pcrs none (sort leb_ℤ s.pcrs)) _ e2 in
        let hash : n.hash ≡ bank x s.hash = cc in
        let pcrs : n.pcrs ≡ sort leb_ℤ s.pcrs = cc in
        record {
          alg = alg;
          named = hash ∙ bank-eq s.hash alg known;
          some_pcr =
              ap is_nil pcrs
              ∙ (is_nil-sort leb_ℤ s.pcrs
                  ∙ ground (arith, guard-ok (not (is_nil s.pcrs)) other filled));
          checked = rw pcrs checked;
          sorted = rw pcrs (sort-IsSorted leb_ℤ leb_ℤ_total s.pcrs);
        }

    -- A digest under the name of a bank is read back.
    pub parse_digest_string-digest_string :
        (h : HashAlg) (d : Text)
        → All IsByte d
        → parse_digest_string x (digest_string x (hash_name h) d) ≡ ok (hash_name h, d)
    unfolding digest_string parse_digest_string
    parse_digest_string-digest_string h d bytes = rw (
      lower-hash_name h,
      cut-append b':' (hash_name h) (encode_hex d) (hash_name-Lacks h),
      lower-hash_name h,
      new_hash-hash_name h,
      decode_hex-encode_hex d bytes,
    )
