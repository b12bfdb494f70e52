-- ===== src/Broker/Rotation/Held.antt =====
-- internal/broker/rotation.go and sqlite.go: what the table key_versions holds of a keyring that is
-- rotated.
use mathlib.Core.List.{Memᴰ}
use openbao_attested_unseal.Prelude.{
  ◌+◌, ◌≡◌, refl, true, ◌&&◌, List, [], ◌∷◌, ◌++◌, All, arith, inl, inr, Bool-cases,
}
use openbao_attested_unseal.Prelude.Result.{ok, guard, wrap_err, >>-ok, invalid_protected_key}
use openbao_attested_unseal.Keyring.Key.{
  KeyRef, Status, active, pending, decrypt_only, is_known, validate_ref,
}
use openbao_attested_unseal.Keyring.Ring.{same_ref}
use openbao_attested_unseal.Keyprotection.{ProtectedKey, validate_protected_key}
use openbao_attested_unseal.Broker.Keys.{
  same_status, with_status, set_status, count_affected, update_key_status,
}
use openbao_attested_unseal.Broker.Keys.Table.{updated, updated-ref}
use openbao_attested_unseal.Broker.Keys.Ordered.{active_rows}
use openbao_attested_unseal.Broker.Keys.Opened.{IsRow}

-- The row is a version of the key of `k`.
abbrev pub IsVersionOf : ProtectedKey → ProtectedKey → Type 0
IsVersionOf k j = (j.ref.cluster_id ≡ k.ref.cluster_id) × (j.ref.key_id ≡ k.ref.key_id)

pub record IsHeld (k : ProtectedKey) (ks : List ProtectedKey) : Type 0 where
  pub versions : All (IsVersionOf k) ks
  pub rows : All IsRow ks
  pub one_active : active_rows ks ≡ 1

pub active_rows-snoc :
    (ks : List ProtectedKey) (j : ProtectedKey)
    → j.status ≡ pending
    → active_rows (ks ++ j ∷ []) ≡ active_rows ks
unfolding active_rows
active_rows-snoc [] j p = rw p refl
active_rows-snoc (k ∷ ks) j p = ground (arith, active_rows-snoc ks j p)

pub active_rows-demote :
    (r : KeyRef) (ks : List ProtectedKey)
    → active_rows (set_status r active decrypt_only ks) + count_affected r active ks
      ≡ active_rows ks
unfolding active_rows set_status count_affected
active_rows-demote r [] = refl
active_rows-demote r (k ∷ ks) = ground (arith, active_rows-demote r ks)

pub active_rows-promote :
    (r : KeyRef) (ks : List ProtectedKey)
    → active_rows (set_status r pending active ks) ≡ active_rows ks + count_affected r pending ks
unfolding active_rows set_status count_affected
active_rows-promote r [] = refl
active_rows-promote r (k ∷ ks) = ground (arith, active_rows-promote r ks)

pub update_key_status-count :
    (r : KeyRef) (old new : Status) (ks ks' : List ProtectedKey)
    → update_key_status r old new ks ≡ ok ks'
    → count_affected r old ks ≡ 1
unfolding update_key_status
update_key_status-count r old new ks ks' h = ground arith

module _ {ℓ} (P : ProtectedKey → Type ℓ) (r : KeyRef) (old new : Status) where
  pub All-set_status :
      (ks : List ProtectedKey)
      → ((k : ProtectedKey) → P k → P (updated r old new k))
      → All P ks
      → All P (set_status r old new ks)
  unfolding set_status
  All-set_status [] keep h = tt
  All-set_status (k ∷ ks) keep (h, hs) = (keep k h, All-set_status ks keep hs)

pub All-mem {ℓ} :
    (P : ProtectedKey → Type ℓ) (ks : List ProtectedKey) (k : ProtectedKey)
    → All P ks
    → Memᴰ k ks
    → P k
All-mem P [] k h m = elim m [ ]
All-mem P (j ∷ ks) k (h, hs) (Memᴰ.head e) = rw e h
All-mem P (j ∷ ks) k (h, hs) (Memᴰ.tail m) = All-mem P ks k hs m

validate_protected_key-with_status :
    (s : Status) (k : ProtectedKey)
    → is_known s ≡ true
    → validate_protected_key k ≡ ok tt
    → validate_protected_key (with_status s k) ≡ ok tt
unfolding validate_protected_key
validate_protected_key-with_status s k known h =
    let (ref, h1) = >>-ok (wrap_err (validate_ref k.ref) invalid_protected_key) _ h in
    let (_, h2) = >>-ok (guard (is_known k.status) invalid_protected_key) _ h1 in
    rw ref (rw known h2)

pub IsRow-updated :
    (r : KeyRef) (old new : Status) (k : ProtectedKey)
    → is_known new ≡ true
    → IsRow k
    → IsRow (updated r old new k)
IsRow-updated r old new k known h =
    elim (Bool-cases (same_ref k.ref r && same_status k.status old)) [
      | inr kept ↦ rw kept h
      | inl hit ↦ rw hit (record {
        valid = validate_protected_key-with_status new k known h.valid;
        positive = h.positive;
        small = h.small;
      })
    ]

pub IsVersionOf-updated :
    (k : ProtectedKey) (r : KeyRef) (old new : Status) (j : ProtectedKey)
    → IsVersionOf k j
    → IsVersionOf k (updated r old new j)
IsVersionOf-updated k r old new j h = rw (updated-ref r old new j) h
