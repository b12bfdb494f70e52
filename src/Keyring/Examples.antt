-- ===== src/Keyring/Examples.antt =====
-- The theorems of the keyring at concrete keys and rings.
use mathlib.Core.List.{Memᴰ}
use openbao_attested_unseal.Prelude.{ℕ, ◌≡◌, ◌↔◌, refl, false, none, some, ◌∷◌, arith}
use openbao_attested_unseal.Prelude.Result.{ok}
use openbao_attested_unseal.Prelude.Text.{codes, text_eq}
use openbao_attested_unseal.Prelude.Split.{split}
use openbao_attested_unseal.Prelude.Decimal.{format_uint, parse_uint}
use openbao_attested_unseal.Keyring.Key.{
  active, decrypt_only, validate_ref, valid_identifier, format_ref, parse_key_ref,
  blob_mechanism_aes256gcm,
}
use openbao_attested_unseal.Keyring.Key.RoundTrip.{parse_key_ref-format_ref}
use openbao_attested_unseal.Keyring.Ring.{
  same_ref, contains_ref, new_ring, active_version, key_for_decrypt,
}
use openbao_attested_unseal.Keyring.Ring.Build.{IsRing, new_ring-ok}
use openbao_attested_unseal.Keyring.Ring.Select.{active_version_iff}
use openbao_attested_unseal.Keyring.Wrap.{BlobInfo, encrypt, decrypt, validate_blob}
use openbao_attested_unseal.Keyring.Wrap.RoundTrip.{decrypt-encrypt}
use openbao_attested_unseal.Keyring.Samples.{
  sample_primitives, sample_laws, bytes_of, sample_ref, sample_key, first_keys, rotated_keys,
  first_keys-IsRing, rotated_keys-IsRing, rotated-SameKey,
}

parse_key_ref-format_ref_example : parse_key_ref (format_ref (sample_ref 7)) ≡ ok (sample_ref 7)
unfolding validate_ref valid_identifier
parse_key_ref-format_ref_example = parse_key_ref-format_ref (sample_ref 7) refl (omega arith)

parsed : parse_key_ref (codes "lab/root/v7") ≡ ok (sample_ref 7)
unfolding parse_key_ref split parse_uint validate_ref valid_identifier
parsed = refl

new_ring-ok_example :
    (new_ring rotated_keys.versions ≡ ok rotated_keys)
    ↔ (IsRing rotated_keys.versions × (rotated_keys.versions ≡ rotated_keys.versions))
new_ring-ok_example = new_ring-ok rotated_keys.versions rotated_keys

active_version_iff_example :
    (active_version rotated_keys ≡ ok (sample_key 2 active))
    ↔ (Memᴰ (sample_key 2 active) rotated_keys.versions × ((sample_key 2 active).status ≡ active))
active_version_iff_example =
    active_version_iff rotated_keys (sample_key 2 active) rotated_keys-IsRing

selected : key_for_decrypt rotated_keys (sample_ref 1) ≡ ok (sample_key 1 decrypt_only)
unfolding key_for_decrypt same_ref text_eq
selected = refl

decrypt-encrypt_example :
    (blob : BlobInfo) × (encrypt sample_primitives none
        (ok (bytes_of 12))
        first_keys
        (codes "secret")
        (codes "aad")
      ≡ ok blob)
    × (decrypt sample_primitives none rotated_keys (some blob) (codes "aad") ≡ ok (codes "secret"))
unfolding active_version
decrypt-encrypt_example =
    decrypt-encrypt sample_primitives sample_laws first_keys rotated_keys (sample_key 1 active)
      (sample_key 1 decrypt_only) (bytes_of 12) (codes "secret") (codes "aad") first_keys-IsRing
      rotated_keys-IsRing refl (omega arith) (Memᴰ.head refl) rotated-SameKey refl refl

-- A blob of version 1 of the sample key.
abbrev sample_blob : ℕ → BlobInfo
sample_blob n = record {
  ciphertext = 7 ∷ codes "secret";
  iv = bytes_of 12;
  key_info =
      some (record { mechanism = blob_mechanism_aes256gcm; key_id = format_ref (sample_ref n) });
}

named : validate_blob (some (sample_blob 1)) ≡ ok (sample_ref 1)
unfolding validate_blob parse_key_ref split parse_uint validate_ref valid_identifier format_ref
    format_uint
named = refl

named_four : validate_blob (some (sample_blob 4)) ≡ ok (sample_ref 4)
unfolding validate_blob parse_key_ref split parse_uint validate_ref valid_identifier format_ref
    format_uint
named_four = refl

unknown : contains_ref rotated_keys.versions (sample_ref 4) ≡ false
unfolding contains_ref same_ref text_eq
unknown = refl
