-- ===== src/Keyring/Wrap/RoundTrip.antt =====
-- wrap.go: what Encrypt makes, Decrypt opens, also after the key has been rotated out.
use mathlib.Core.List.{Memᴰ}
use openbao_attested_unseal.Prelude.{
  List, ◌++◌, ◌≤◌, ◌≡◌, refl, ◌≢◌, true, none, some, [], ◌∷◌, arith, length, ◌∙◌,
}
use openbao_attested_unseal.Prelude.Result.{ok}
use openbao_attested_unseal.Prelude.Text.{Text}
use openbao_attested_unseal.Keyring.Key.{
  KeyRef, KeyVersion, nonce_size, version_limit, validate_ref, validate_version, can_decrypt,
  format_ref, blob_mechanism_aes256gcm,
}
use openbao_attested_unseal.Keyring.Key.RoundTrip.{parse_key_ref-format_ref}
use openbao_attested_unseal.Keyring.Ring.{Ring, active_version, key_for_decrypt}
use openbao_attested_unseal.Keyring.Ring.Build.{AreFresh, IsRing}
use openbao_attested_unseal.Keyring.Ring.Select.{active_version_unique, key_for_decrypt-mem}
use openbao_attested_unseal.Keyring.Metadata.{new_metadata, validate_metadata-new_metadata}
use openbao_attested_unseal.Keyring.Primitives.{Primitives, PrimitiveLaws}
use openbao_attested_unseal.Keyring.Wrap.{
  BlobInfo, canonical_aad, new_aead, encrypt, decrypt, validate_blob,
}

AreFresh-valid :
    (before vs : List KeyVersion) (v : KeyVersion)
    → AreFresh before vs
    → Memᴰ v vs
    → validate_version v ≡ ok tt
AreFresh-valid before [] v h m = elim m [ ]
AreFresh-valid before (w ∷ vs) v h (Memᴰ.head e) = rw e h.0
AreFresh-valid before (w ∷ vs) v h (Memᴰ.tail m) = AreFresh-valid (before ++ w ∷ []) vs v h.2 m

-- Every version that a ring holds is valid.
pub IsRing-valid :
    (vs : List KeyVersion) (v : KeyVersion) → IsRing vs → Memᴰ v vs → validate_version v ≡ ok tt
IsRing-valid vs v h m = AreFresh-valid [] vs v h.valid m

pub validate_version-parts :
    (v : KeyVersion)
    → validate_version v ≡ ok tt
    → (validate_ref v.ref ≡ ok tt) × (length v.material ≡ 32)
unfolding validate_version
validate_version-parts v h = ground arith

pub validate_blob-format_ref :
    (ct nonce : Text) (ref : KeyRef)
    → ct ≢ []
    → length nonce ≡ nonce_size
    → validate_ref ref ≡ ok tt
    → ref.version ≤ version_limit
    → validate_blob (
        some (record {
          ciphertext = ct;
          iv = nonce;
          key_info =
              some (record { mechanism = blob_mechanism_aes256gcm; key_id = format_ref ref });
        }))
      ≡ ok ref
unfolding validate_blob
validate_blob-format_ref [] nonce ref hc hn hr hv = absurd (hc refl)
validate_blob-format_ref (c ∷ ct) nonce ref hc hn hr hv =
    ground (arith, parse_key_ref-format_ref ref hr hv)

-- Two versions that differ at most in their status.
pub record SameKey (v w : KeyVersion) : Type 0 where
  pub ref : w.ref ≡ v.ref
  pub algorithm : w.algorithm ≡ v.algorithm
  pub policy : w.policy_id ≡ v.policy_id
  pub material : w.material ≡ v.material

new_metadata-SameKey : (v w : KeyVersion) → SameKey v w → new_metadata w ≡ new_metadata v
unfolding new_metadata
new_metadata-SameKey v w s = ground arith

pub active-valid :
    (r : Ring) (v : KeyVersion)
    → IsRing r.versions
    → active_version r ≡ ok v
    → validate_version v ≡ ok tt
active-valid r v h e =
    let (u, found, m, _, _) = active_version_unique r h in
    let same : u ≡ v = cc in rw same at (IsRing-valid r.versions u h m)

key_for_decrypt-SameKey :
    (r : Ring) (v w : KeyVersion)
    → IsRing r.versions
    → Memᴰ w r.versions
    → SameKey v w
    → can_decrypt w ≡ true
    → key_for_decrypt r v.ref ≡ ok w
key_for_decrypt-SameKey r v w h m same usable =
    rw (← same.ref) (key_for_decrypt-mem r w h m ∙ rw usable refl)

module _ (p : Primitives) (laws : PrimitiveLaws p) where
  canonical_aad_total :
      (v : KeyVersion) (caller : Text)
      → validate_version v ≡ ok tt
      → (aad : Text) × (canonical_aad p (new_metadata v) caller ≡ ok aad)
  unfolding canonical_aad
  canonical_aad_total v caller h =
      let (aad, e) = laws.marshal_total (new_metadata v) caller in
      (aad, rw (validate_metadata-new_metadata v h) (rw e refl))

  new_aead_total : (key : Text) → length key ≡ 32 → (a : p.Aead) × (new_aead p key ≡ ok a)
  unfolding new_aead
  new_aead_total key h =
      let (b, e) = laws.cipher_of_key key h in
      let (a, f) = laws.gcm_of_cipher b in (a, rw e (rw f refl))

  -- In a live context, with a nonce of 12 bytes and an active version that is a uint32, every ring
  -- encrypts every plaintext, and what it makes is opened, with the same caller data, by every ring
  -- that still holds the key under a status that may decrypt.
  pub decrypt-encrypt :
      (r later : Ring) (v w : KeyVersion) (nonce plaintext caller : Text)
      → IsRing r.versions
      → IsRing later.versions
      → active_version r ≡ ok v
      → v.ref.version ≤ version_limit
      → Memᴰ w later.versions
      → SameKey v w
      → can_decrypt w ≡ true
      → length nonce ≡ nonce_size
      → (blob : BlobInfo) × (encrypt p none (ok nonce) r plaintext caller ≡ ok blob)
        × (decrypt p none later (some blob) caller ≡ ok plaintext)
  unfolding encrypt decrypt
  decrypt-encrypt r later v w nonce plaintext caller hr hl hv bound hm same usable size =
      let valid = active-valid r v hr hv in
      let (ref_ok, key_ok) = validate_version-parts v valid in
      let (aad, ea) = canonical_aad_total v caller valid in
      let (a, en) = new_aead_total v.material key_ok in
      (
        record {
          ciphertext = p.seal a nonce plaintext aad;
          iv = nonce;
          key_info =
              some (record { mechanism = blob_mechanism_aes256gcm; key_id = format_ref v.ref });
        },
        rw hv (rw ea (rw en refl)),
        rw
            (validate_blob-format_ref (p.seal a nonce plaintext aad) nonce v.ref
              (laws.seal_ne_nil a nonce plaintext aad) size ref_ok bound)
            (rw (key_for_decrypt-SameKey later v w hl hm same usable) (
              rw (new_metadata-SameKey v w same) (
                rw ea (
                  rw same.material
                    (rw en (rw (laws.open-seal a nonce plaintext aad size) refl)))))),
      )
