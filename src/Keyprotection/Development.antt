-- ===== src/Keyprotection/Development.antt =====
-- development.go: the development protector opens what it protects, and nothing else.
use openbao_attested_unseal.Prelude.{
  ◌≡◌, refl, true, false, none, some, Option, [], ◌∷◌, arith, length,
}
use openbao_attested_unseal.Prelude.Result.{Error, ok}
use openbao_attested_unseal.Prelude.Text.{Text, text_eq, text_eq_iff, text_eq_refl, is_empty}
use openbao_attested_unseal.Prelude.Space.{is_blank}
use openbao_attested_unseal.Keyring.Key.{
  KeyVersion, validate_version, valid_identifier, validate_ref, is_known, algorithm_aes256gcm,
}
use openbao_attested_unseal.Keyprotection.{
  ProtectedKey, profile_development, format_development_plaintext_v1, validate_protected_key,
  with_material, protect, unprotect,
}

development_labels :
    (valid_identifier profile_development ≡ true)
    × (is_blank format_development_plaintext_v1 ≡ false)
unfolding valid_identifier is_blank
development_labels = (refl, refl)

abbrev protected : KeyVersion → ProtectedKey
protected v = record {
  ref = v.ref;
  status = v.status;
  algorithm = v.algorithm;
  policy_id = v.policy_id;
  protector_profile = profile_development;
  format = format_development_plaintext_v1;
  payload = v.material;
}

not_empty : (t : Text) → length t ≡ 32 → is_empty t ≡ false
not_empty [] h = absurd (omega arith)
not_empty (c ∷ t) h = refl

validate_version-parts :
    (v : KeyVersion)
    → validate_version v ≡ ok tt
    → (validate_ref v.ref ≡ ok tt)
      × (is_known v.status ≡ true)
      × (text_eq v.algorithm algorithm_aes256gcm ≡ true)
      × (valid_identifier v.policy_id ≡ true)
      × (length v.material ≡ 32)
unfolding validate_version
validate_version-parts v h = (ground arith, ground arith, ground arith, ground arith, ground arith)

validate_protected_key-protected :
    (v : KeyVersion) → validate_version v ≡ ok tt → validate_protected_key (protected v) ≡ ok tt
unfolding validate_protected_key
validate_protected_key-protected v h =
    let (r, s, a, p, m) = validate_version-parts v h in
    let (name, format) = development_labels in
    rw r (rw s (rw a (rw p (rw name (rw format (rw (not_empty v.material m) refl))))))

-- In a live context the development protector protects every valid version, and opens the record to
-- the same version.
pub unprotect-protect :
    (v : KeyVersion)
    → validate_version v ≡ ok tt
    → (k : ProtectedKey) × (protect none v ≡ ok k) × (unprotect none k ≡ ok v)
unfolding protect unprotect
unprotect-protect v h =
    let valid = validate_protected_key-protected v h in
    (
      protected v,
      rw h (rw valid refl),
      rw valid (
          rw (text_eq_refl profile_development)
            (rw (text_eq_refl format_development_plaintext_v1) (rw h refl))),
    )

-- What the development protector opens carries its two labels, and gives the fields of the record
-- with its payload as the key.
pub unprotect-ok :
    (cancelled : Option Error) (k : ProtectedKey) (v : KeyVersion)
    → unprotect cancelled k ≡ ok v
    → (cancelled ≡ none)
      × (k.protector_profile ≡ profile_development)
      × (k.format ≡ format_development_plaintext_v1)
      × (v ≡ with_material k k.payload)
      × (validate_version v ≡ ok tt)
unfolding unprotect
unprotect-ok (some e) k v h = cc
unprotect-ok none k v h = (
  refl,
  ground (arith, text_eq_iff k.protector_profile profile_development),
  ground (arith, text_eq_iff k.format format_development_plaintext_v1),
  ground arith,
  ground arith,
)
