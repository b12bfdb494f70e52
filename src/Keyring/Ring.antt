-- ===== src/Keyring/Ring.antt =====
-- internal/keyring/ring.go: a ring selects the active and the historical key versions. A nil `*Ring`
-- is the value `none` of the callers.
pub mod Build
pub mod Select
use openbao_attested_unseal.Prelude.{
  ℕ, ◌+◌, Bool, true, false, ◌&&◌, ◌||◌, List, [], ◌∷◌, ◌++◌, ◌==◌, if◌then◌else◌,
}
use openbao_attested_unseal.Prelude.Result.{
  Result, ok, err, invalid_metadata, key_not_found, key_not_usable, ◌>>=◌, ◌>>◌,
}
use openbao_attested_unseal.Prelude.Text.{text_eq}
use openbao_attested_unseal.Keyring.Key.{
  KeyRef, KeyVersion, validate_version, is_active, can_encrypt, can_decrypt,
}

pub record Ring : Type 0 where
  pub versions : List KeyVersion

-- sameRef
unfoldable pub same_ref : KeyRef → KeyRef → Bool
same_ref a b =
    text_eq a.cluster_id b.cluster_id && (text_eq a.key_id b.key_id && (a.version == b.version))

-- containsRef
unfoldable pub contains_ref : List KeyVersion → KeyRef → Bool
contains_ref [] ref = false
contains_ref (v ∷ vs) ref = same_ref v.ref ref || contains_ref vs ref

-- What follows the loop of NewRing.
finish : List KeyVersion → ℕ → Result Ring
finish copied count = if count == 1 then ok (record { versions = copied }) else err invalid_metadata

-- The loop of NewRing over the versions that are left.
add_versions : List KeyVersion → List KeyVersion → ℕ → Result Ring
unfolding finish
add_versions [] copied count = finish copied count
add_versions (v ∷ rest) copied count =
    let next =
      add_versions rest (copied ++ v ∷ []) (if is_active v.status then count + 1 else count) in
    validate_version v >> (if contains_ref copied v.ref then err invalid_metadata else next)

-- NewRing
unfoldable pub new_ring : List KeyVersion → Result Ring
unfolding add_versions
new_ring [] = err invalid_metadata
new_ring (v ∷ vs) = add_versions (v ∷ vs) [] 0

first_active : List KeyVersion → Result KeyVersion
first_active [] = err key_not_usable
first_active (v ∷ vs) = if can_encrypt v then ok v else first_active vs

-- Ring.Active
unfoldable pub active_version : Ring → Result KeyVersion
unfolding first_active
active_version r = first_active r.versions

find_for_decrypt : KeyRef → List KeyVersion → Result KeyVersion
find_for_decrypt ref [] = err key_not_found
find_for_decrypt ref (v ∷ vs) =
    if same_ref v.ref ref
    then (if can_decrypt v then ok v else err key_not_usable)
    else find_for_decrypt ref vs

-- Ring.keyForDecrypt
unfoldable pub key_for_decrypt : Ring → KeyRef → Result KeyVersion
unfolding find_for_decrypt
key_for_decrypt r ref = find_for_decrypt ref r.versions
