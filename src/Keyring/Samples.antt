-- ===== src/Keyring/Samples.antt =====
-- A concrete instance of the primitives, and sample keys and rings, for the tests.
use openbao_attested_unseal.Prelude.{
  ℕ, suc, zero, refl, [], ◌∷◌, ◌==◌, if◌then◌else◌, length, arith,
}
use openbao_attested_unseal.Prelude.Result.{Result, ok, err, other}
use openbao_attested_unseal.Prelude.Text.{Text, codes, text_eq}
use openbao_attested_unseal.Keyring.Key.{
  KeyRef, KeyVersion, Status, active, decrypt_only, algorithm_aes256gcm, validate_version,
  validate_ref, valid_identifier,
}
use openbao_attested_unseal.Keyring.Ring.{Ring, same_ref, contains_ref}
use openbao_attested_unseal.Keyring.Ring.Build.{IsRing}
use openbao_attested_unseal.Keyring.Primitives.{Primitives, PrimitiveLaws}
use openbao_attested_unseal.Keyring.Wrap.RoundTrip.{SameKey}

-- The primitives over a tag of one byte.
abbrev open_tagged : Text → Result Text
open_tagged [] = err other
open_tagged (tag ∷ plain) = ok plain

abbrev pub sample_primitives : Primitives
sample_primitives = record {
  Block = Text;
  Aead = Text;
  new_cipher = λ key. if length key == 32 then ok key else err other;
  new_gcm = λ block size. if size == 12 then ok block else err other;
  seal = λ a nonce plain aad. 7 ∷ plain;
  open_sealed = λ a nonce sealed aad. open_tagged sealed;
  marshal = λ m aad. ok aad;
}

pub sample_laws : PrimitiveLaws sample_primitives
sample_laws = record {
  cipher_of_key = λ key h. (key, ground arith);
  gcm_of_cipher = λ b. (b, refl);
  seal_ne_nil = λ a nonce plain aad e. cc;
  open-seal = λ a nonce plain aad h. refl;
  marshal_total = λ m aad. (aad, refl);
}

abbrev pub bytes_of : ℕ → Text
bytes_of zero = []
bytes_of (suc n) = 5 ∷ bytes_of n

abbrev pub sample_ref : ℕ → KeyRef
sample_ref n = record { cluster_id = codes "lab"; key_id = codes "root"; version = n }

abbrev pub sample_key : ℕ → Status → KeyVersion
sample_key n status = record {
  ref = sample_ref n;
  status = status;
  algorithm = algorithm_aes256gcm;
  policy_id = codes "default";
  material = bytes_of 32;
}

-- A ring of one version, and the ring after its key has been rotated.
abbrev pub first_keys : Ring
first_keys = record { versions = sample_key 1 active ∷ [] }

abbrev pub rotated_keys : Ring
rotated_keys = record { versions = sample_key 1 decrypt_only ∷ (sample_key 2 active ∷ []) }

pub first_keys-IsRing : IsRing first_keys.versions
unfolding validate_version validate_ref valid_identifier contains_ref same_ref text_eq
first_keys-IsRing = record { valid = (refl, refl, tt); one_active = refl }

pub rotated_keys-IsRing : IsRing rotated_keys.versions
unfolding validate_version validate_ref valid_identifier contains_ref same_ref text_eq
rotated_keys-IsRing = record { valid = (refl, refl, (refl, refl, tt)); one_active = refl }

pub rotated-SameKey : SameKey (sample_key 1 active) (sample_key 1 decrypt_only)
rotated-SameKey = record { ref = refl; algorithm = refl; policy = refl; material = refl }
