-- ===== src/Keyring/Key/RoundTrip.antt =====
-- key.go: the text of a valid key reference is read back as that reference.
use openbao_attested_unseal.Prelude.{◌∙◌, ap, List, ℕ, ◌≤◌, ◌≡◌, ◌≢◌, true, [], ◌∷◌, arith, All}
use openbao_attested_unseal.Prelude.Result.{ok}
use openbao_attested_unseal.Prelude.Text.{Text}
use openbao_attested_unseal.Prelude.Decimal.{
  format_uint, parse_uint-format_uint, format_uint-IsDigit, IsDigit,
}
use openbao_attested_unseal.Prelude.Split.{split, Lacks, split-Lacks, split-append}
use openbao_attested_unseal.Keyring.Key.{
  KeyRef, valid_identifier, all_identifier_bytes, is_identifier_byte, validate_ref, format_ref,
  parse_key_ref, parse_parts, parse_version, version_limit,
}

identifier_byte_ne_slash : (c : ℕ) → is_identifier_byte c ≡ true → c ≢ b'/'
unfolding is_identifier_byte
identifier_byte_ne_slash c h = ground arith

all_identifier_bytes-Lacks : (s : Text) → all_identifier_bytes s ≡ true → Lacks b'/' s
unfolding all_identifier_bytes
all_identifier_bytes-Lacks [] h = tt
all_identifier_bytes-Lacks (c ∷ s) h =
    (identifier_byte_ne_slash c (ground arith), all_identifier_bytes-Lacks s (ground arith))

-- An identifier never holds the separator of a key reference.
pub valid_identifier-Lacks : (s : Text) → valid_identifier s ≡ true → Lacks b'/' s
unfolding valid_identifier
valid_identifier-Lacks [] h = tt
valid_identifier-Lacks (c ∷ s) h = (ground arith, all_identifier_bytes-Lacks s (ground arith))

digits-Lacks : (s : Text) → All IsDigit s → Lacks b'/' s
digits-Lacks [] h = tt
digits-Lacks (c ∷ s) h = (λ e. omega arith, digits-Lacks s h.1)

split-format_ref :
    (r : KeyRef)
    → valid_identifier r.cluster_id ≡ true
    → valid_identifier r.key_id ≡ true
    → split b'/' (format_ref r) ≡ r.cluster_id ∷ r.key_id ∷ (b'v' ∷ format_uint r.version) ∷ []
unfolding format_ref
split-format_ref r hc hk =
    split-append b'/' r.cluster_id _ (valid_identifier-Lacks r.cluster_id hc)
    ∙ ap (λ parts. r.cluster_id ∷ parts)
        (split-append b'/' r.key_id _ (valid_identifier-Lacks r.key_id hk)
          ∙ ap (λ parts. r.key_id ∷ parts)
              (split-Lacks b'/' _ (
                λ e. omega arith,
                digits-Lacks (format_uint r.version) (format_uint-IsDigit r.version),
              )))

-- Validation fails on no reference whose parts are valid.
pub validate_ref-parts :
    (r : KeyRef)
    → validate_ref r ≡ ok tt
    → (valid_identifier r.cluster_id ≡ true) × (valid_identifier r.key_id ≡ true) × (r.version ≢ 0)
unfolding validate_ref
validate_ref-parts r h = ground arith

-- The text of a valid reference, whose version is a uint32, is parsed to the same reference.
pub parse_key_ref-format_ref :
    (r : KeyRef)
    → validate_ref r ≡ ok tt
    → r.version ≤ version_limit
    → parse_key_ref (format_ref r) ≡ ok r
unfolding parse_key_ref
parse_key_ref-format_ref r h bound =
    let (hc, hk, _) = validate_ref-parts r h in
    rw (split-format_ref r hc hk) (
      unfold parse_parts parse_version in
      rw (parse_uint-format_uint version_limit r.version bound) (rw h))

parse_parts-valid :
    (parts : List Text) (r : KeyRef) → parse_parts parts ≡ ok r → validate_ref r ≡ ok tt
unfolding parse_parts
parse_parts-valid (a ∷ b ∷ c ∷ []) r h = ground arith
parse_parts-valid _ r h = cc

-- A parsed reference is valid, whatever the text.
pub parse_key_ref-valid :
    (raw : Text) (r : KeyRef) → parse_key_ref raw ≡ ok r → validate_ref r ≡ ok tt
unfolding parse_key_ref
parse_key_ref-valid raw r h = parse_parts-valid (split b'/' raw) r h
