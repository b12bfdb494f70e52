-- ===== src/Keyprotection.antt =====
-- internal/keyprotection: protected key records, the loader of a keyring, and the development
-- protector. `Clone` and slices.Clone copy a value, so they are the identity here.
pub mod Development
use openbao_attested_unseal.Prelude.{
  Bool, true, false, not, ◌&&◌, Option, none, List, [], ◌∷◌, ◌==◌, length,
}
use openbao_attested_unseal.Prelude.Result.{
  Error, Result, ok, err, invalid_protected_key, protector_mismatch, ◌>>=◌, ◌>>◌, guard, wrap_err,
}
use openbao_attested_unseal.Prelude.Text.{Text, codes, text_eq, is_empty}
use openbao_attested_unseal.Prelude.Space.{is_blank}
use openbao_attested_unseal.Keyring.Key.{
  KeyRef, Status, KeyVersion, algorithm_aes256gcm, valid_identifier, validate_ref, is_known,
  validate_version,
}
use openbao_attested_unseal.Keyring.Ring.{Ring, new_ring}
use openbao_attested_unseal.Keyring.Wrap.{live}

abbrev pub profile_development : Text
profile_development = codes "development"

abbrev pub format_development_plaintext_v1 : Text
format_development_plaintext_v1 = codes "openbao-attested-unseal.development-plaintext.v1"

pub record ProtectedKey : Type 0 where
  pub ref : KeyRef
  pub status : Status
  pub algorithm : Text
  pub policy_id : Text
  pub protector_profile : Text
  pub format : Text
  pub payload : Text

-- ProtectedKey.Validate
unfoldable pub validate_protected_key : ProtectedKey → Result (Unit {0})
validate_protected_key k = do
  wrap_err (validate_ref k.ref) invalid_protected_key
  guard (is_known k.status) invalid_protected_key
  guard (text_eq k.algorithm algorithm_aes256gcm) invalid_protected_key
  guard (valid_identifier k.policy_id) invalid_protected_key
  guard (valid_identifier k.protector_profile) invalid_protected_key
  guard (not (is_blank k.format)) invalid_protected_key
  guard (not (is_empty k.payload)) invalid_protected_key

-- ProtectedKey.Metadata, with the material that Unprotect adds to it.
abbrev pub with_material : ProtectedKey → Text → KeyVersion
with_material k material = record {
  ref = k.ref;
  status = k.status;
  algorithm = k.algorithm;
  policy_id = k.policy_id;
  material = material;
}

-- DevelopmentProtector.Protect, where `cancelled` is the result of ctx.Err().
unfoldable pub protect : Option Error → KeyVersion → Result ProtectedKey
protect cancelled v = do
  live cancelled
  validate_version v
  let k : ProtectedKey = record {
    ref = v.ref;
    status = v.status;
    algorithm = v.algorithm;
    policy_id = v.policy_id;
    protector_profile = profile_development;
    format = format_development_plaintext_v1;
    payload = v.material;
  }
  validate_protected_key k
  ok k

-- DevelopmentProtector.Unprotect
unfoldable pub unprotect : Option Error → ProtectedKey → Result KeyVersion
unprotect cancelled k = do
  live cancelled
  validate_protected_key k
  guard
      (text_eq k.protector_profile profile_development
        && text_eq k.format format_development_plaintext_v1)
      protector_mismatch
  validate_version (with_material k k.payload)
  ok (with_material k k.payload)

-- Protector, as far as the loader uses it.
pub record Protector : Type 0 where
  pub profile : Text
  pub open_key : ProtectedKey → Result KeyVersion

-- The loop of Loader.LoadKeyring.
unfoldable pub open_keys : Protector → List ProtectedKey → Result (List KeyVersion)
open_keys p [] = ok []
open_keys p (k ∷ ks) = do
  guard (text_eq k.protector_profile p.profile) protector_mismatch
  v ← p.open_key k
  vs ← open_keys p ks
  ok (v ∷ vs)

-- Loader.LoadKeyring, on the result of Repository.ProtectedKeys.
unfoldable pub load_keyring : Protector → Result (List ProtectedKey) → Result Ring
load_keyring p records = do ks ← records; vs ← open_keys p ks; new_ring vs

abbrev pub development_protector : Option Error → Protector
development_protector cancelled = record {
  profile = profile_development;
  open_key = unprotect cancelled;
}
