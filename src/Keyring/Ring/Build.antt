-- ===== src/Keyring/Ring/Build.antt =====
-- NewRing: which lists of versions make a ring.
use mathlib.Core.List.{append_assoc, append-nil}
use openbao_attested_unseal.Prelude.{
  ℕ, ◌+◌, ◌≡◌, ap, false, List, [], ◌∷◌, ◌++◌, arith, ◌↔◌, if◌then◌else◌, ◌∙◌, sym,
}
use openbao_attested_unseal.Prelude.Result.{ok}
use openbao_attested_unseal.Keyring.Key.{KeyVersion, validate_version, is_active}
use openbao_attested_unseal.Keyring.Ring.{Ring, contains_ref, add_versions, new_ring}

-- How many of the versions are active.
abbrev pub count_active : List KeyVersion → ℕ
count_active [] = 0
count_active (v ∷ vs) = let n = count_active vs in if is_active v.status then n + 1 else n

-- Every version is valid, and its reference is not among those before it.
abbrev pub AreFresh : List KeyVersion → List KeyVersion → Type 0
AreFresh before [] = Unit
AreFresh before (v ∷ vs) =
    (validate_version v ≡ ok tt)
    × (contains_ref before v.ref ≡ false)
    × AreFresh (before ++ v ∷ []) vs

-- What NewRing asks of its arguments.
pub record IsRing (vs : List KeyVersion) : Type 0 where
  pub valid : AreFresh [] vs
  pub one_active : count_active vs ≡ 1

Ring-eta : (r : Ring) (vs : List KeyVersion) → vs ≡ r.versions → record { versions = vs } ≡ r
Ring-eta r vs e = ap (λ l. record { versions = l }) e

add_versions-ok :
    (vs copied : List KeyVersion) (n : ℕ) (r : Ring)
    → add_versions vs copied n ≡ ok r
    → AreFresh copied vs × (n + count_active vs ≡ 1) × (r.versions ≡ copied ++ vs)
unfolding add_versions
add_versions-ok [] copied n r h = (tt, ground arith, (ground arith) ∙ sym (append-nil copied))
add_versions-ok (v ∷ vs) copied n r h =
    let (fresh, one, same) =
      add_versions-ok vs (copied ++ v ∷ []) (if is_active v.status then n + 1 else n) r
        (ground arith) in
    ((ground arith, ground arith, fresh), ground arith, same ∙ append_assoc copied (v ∷ []) vs)

add_versions-of_fresh :
    (vs copied : List KeyVersion) (n : ℕ)
    → AreFresh copied vs
    → n + count_active vs ≡ 1
    → add_versions vs copied n ≡ ok (record { versions = copied ++ vs })
unfolding add_versions
add_versions-of_fresh [] copied n h e = rw (append-nil copied) (ground arith)
add_versions-of_fresh (v ∷ vs) copied n (hv, hc, h) e =
    let ih =
      add_versions-of_fresh vs (copied ++ v ∷ []) (if is_active v.status then n + 1 else n) h
        (ground arith) in
    rw (hv, hc) (ih ∙ ap (λ l. ok (record { versions = l })) (append_assoc copied (v ∷ []) vs))

new_ring_sound :
    (vs : List KeyVersion) (r : Ring) → new_ring vs ≡ ok r → IsRing vs × (r.versions ≡ vs)
unfolding new_ring
new_ring_sound [] r h = cc
new_ring_sound (v ∷ vs) r h =
    let (fresh, one, same) = add_versions-ok (v ∷ vs) [] 0 r h in
    (record { valid = fresh; one_active = ground arith }, same)

new_ring_complete : (vs : List KeyVersion) → IsRing vs → new_ring vs ≡ ok (record { versions = vs })
unfolding new_ring
new_ring_complete [] h = absurd (omega arith)
new_ring_complete (v ∷ vs) h = add_versions-of_fresh (v ∷ vs) [] 0 h.valid (ground arith)

-- NewRing accepts exactly the nonempty lists of valid versions with distinct references of which
-- one is active, and the ring holds the versions in their order.
pub new_ring-ok :
    (vs : List KeyVersion) (r : Ring) → (new_ring vs ≡ ok r) ↔ (IsRing vs × (r.versions ≡ vs))
new_ring-ok vs r =
    (new_ring_sound vs r, λ h. new_ring_complete vs h.0 ∙ ap ok (Ring-eta r vs (sym h.1)))
