-- ===== src/Keyring/Wrap/Refusals.antt =====
-- wrap.go: which version a decryption uses, and the refusals by status.
use mathlib.Core.List.{Memᴰ}
use openbao_attested_unseal.Prelude.{◌≡◌, refl, false, none, some}
use openbao_attested_unseal.Prelude.Result.{Result, ok, err, key_not_usable, key_not_found}
use openbao_attested_unseal.Prelude.Text.{Text}
use openbao_attested_unseal.Keyring.Key.{KeyRef, KeyVersion, can_decrypt}
use openbao_attested_unseal.Keyring.Ring.{Ring, contains_ref}
use openbao_attested_unseal.Keyring.Ring.Build.{IsRing}
use openbao_attested_unseal.Keyring.Ring.Select.{key_for_decrypt-mem, key_for_decrypt-unknown}
use openbao_attested_unseal.Keyring.Primitives.{Primitives}
use openbao_attested_unseal.Keyring.Wrap.{BlobInfo, decrypt, validate_blob}

module _ (p : Primitives) where
  -- In a live context a well-formed blob is refused with the usability error where the ring holds
  -- its version under a status that may not decrypt.
  pub decrypt_not_usable :
      (r : Ring) (blob : BlobInfo) (v : KeyVersion) (caller : Text)
      → IsRing r.versions
      → validate_blob (some blob) ≡ ok v.ref
      → Memᴰ v r.versions
      → can_decrypt v ≡ false
      → decrypt p none r (some blob) caller ≡ err key_not_usable
  unfolding decrypt
  decrypt_not_usable r blob v caller hr hb m d =
      rw hb (rw (key_for_decrypt-mem r v hr m) (rw d refl))

  -- In a live context a well-formed blob is refused with the missing-key error where the ring does
  -- not hold the version that it names.
  pub decrypt_unknown :
      (r : Ring) (blob : BlobInfo) (ref : KeyRef) (caller : Text)
      → validate_blob (some blob) ≡ ok ref
      → contains_ref r.versions ref ≡ false
      → decrypt p none r (some blob) caller ≡ err key_not_found
  unfolding decrypt
  decrypt_unknown r blob ref caller hb h = rw hb (rw (key_for_decrypt-unknown r ref h) refl)
