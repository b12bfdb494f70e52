-- ===== src/Broker/Rotation/Activate.antt =====
-- ActivateRotation on the table key_versions: the old version is demoted and the new one promoted.
use mathlib.Core.Path.{subst}
use openbao_attested_unseal.Prelude.{
  ℕ, ◌≡◌, ◌≢◌, refl, sym, ap, ◌∙◌, false, some, List, arith, ◌⊎◌, inl, inr, Bool-cases,
}
use openbao_attested_unseal.Prelude.Result.{ok}
use openbao_attested_unseal.Keyring.Key.{KeyRef, active, pending, decrypt_only}
use openbao_attested_unseal.Keyring.Ring.{same_ref}
use openbao_attested_unseal.Keyring.Ring.Select.{same_ref_iff}
use openbao_attested_unseal.Keyprotection.{ProtectedKey}
use openbao_attested_unseal.Broker.Keys.{
  find_key, set_status, with_status, update_key_status, has_other_active,
}
use openbao_attested_unseal.Broker.Keys.Table.{
  AreDistinctKeys, AreDistinctKeys-set_status, HasOneActive, find_key-ref, find_key-mem,
  find_key-set_status, find_key-of_set_status, updated, updated_other, same_ref_refl,
  has_other_active-mem, update_key_status-find_key,
}
use openbao_attested_unseal.Broker.Rotation.{
  RotationOperation, RotationTables, mark_activated, version_ref,
}
use openbao_attested_unseal.Broker.Rotation.Invariant.{IsPaired}

-- The keys after the old version is demoted, and after the new one is promoted.
abbrev pub demoted : RotationOperation → List ProtectedKey → List ProtectedKey
demoted o ks = set_status (version_ref o o.from_version) active decrypt_only ks

abbrev pub promoted : RotationOperation → List ProtectedKey → List ProtectedKey
promoted o ks = set_status (version_ref o o.to_version) pending active (demoted o ks)

-- The tables after the activation.
abbrev pub activated_tables : RotationOperation → ℕ → RotationTables → RotationTables
activated_tables o now t = record {
  keys = promoted o t.keys;
  operations = mark_activated o.operation_id now t.operations;
  verifications = t.verifications;
}

find_key_self :
    (r : KeyRef) (ks : List ProtectedKey) (k : ProtectedKey)
    → find_key r ks ≡ some k
    → find_key k.ref ks ≡ some k
find_key_self r ks k h = subst (λ s. find_key s ks ≡ some k) (sym (find_key-ref r ks k h)) h

module _ (ks : List ProtectedKey) (o : RotationOperation) (p : IsPaired ks o) where
  versions_differ : version_ref o o.to_version ≢ version_ref o o.from_version
  versions_differ e =
      let same : find_key (version_ref o o.from_version) ks ≡ some p.new =
        subst (λ r. find_key r ks ≡ some p.new) e p.new_found in
      ground (arith, p.old_found, same, p.old_active, p.new_pending)

  demoted-new : find_key (version_ref o o.to_version) (demoted o ks) ≡ some p.new
  demoted-new =
      let r = version_ref o o.from_version in
      let kept : updated r active decrypt_only p.new ≡ p.new =
        updated_other r active decrypt_only p.new (λ e.
          versions_differ
            (sym (find_key-ref (version_ref o o.to_version) ks p.new p.new_found) ∙ e)) in
      find_key-set_status (version_ref o o.to_version) r active decrypt_only ks p.new p.new_found
      ∙ ap some kept

  -- A row that is active after the old version is demoted is not of the key of the operation.
  demoted-active :
      HasOneActive ks
      → (k : ProtectedKey) → find_key k.ref (demoted o ks) ≡ some k
      → k.status ≡ active
      → (find_key k.ref ks ≡ some k) × (k.ref.cluster_id ≡ o.cluster_id → k.ref.key_id ≢ o.key_id)
  demoted-active one k f a =
      let r = version_ref o o.from_version in
      let (j, fj, e) = find_key-of_set_status k.ref r active decrypt_only ks k f in
      elim (Bool-cases (same_ref j.ref r)) [
        | inl same ↦ absurd (ground arith)
        | inr differs ↦
            let kept : k ≡ j = ground arith in
            (
              fj ∙ ap some (sym kept),
              λ c i.
                  let v =
                    one j p.old (find_key_self k.ref ks j fj) (find_key_self r ks p.old p.old_found)
                      (ground
                        (arith, find_key-ref k.ref ks j fj, find_key-ref r ks p.old p.old_found))
                      (ground
                        (arith, find_key-ref k.ref ks j fj, find_key-ref r ks p.old p.old_found))
                      (ground arith) p.old_active in
                  ground (
                    arith,
                    find_key-ref k.ref ks j fj,
                    find_key-ref r ks p.old p.old_found,
                    same_ref_refl r,
                  ),
            )
      ]

  demoted_free :
      HasOneActive ks
      → AreDistinctKeys ks
      → has_other_active (version_ref o o.to_version) (demoted o ks) ≡ false
  demoted_free one d =
      elim (Bool-cases (has_other_active (version_ref o o.to_version) (demoted o ks))) [
        | inr free ↦ free
        | inl taken ↦
            let (k, m, c, i, a, v) =
              has_other_active-mem (version_ref o o.to_version) (demoted o ks) taken in
            let f =
              find_key-mem (demoted o ks) k
                (AreDistinctKeys-set_status (version_ref o o.from_version) active decrypt_only ks d)
                m in
            absurd ((demoted-active one k f a).1 c i)
      ]

  pub update_demoted :
      AreDistinctKeys ks
      → update_key_status (version_ref o o.from_version) active decrypt_only ks ≡ ok (demoted o ks)
  update_demoted d =
      let found =
        update_key_status-find_key (version_ref o o.from_version) decrypt_only ks p.old d
          p.old_found refl in
      rw p.old_active at found

  pub update_promoted :
      HasOneActive ks
      → AreDistinctKeys ks
      → update_key_status (version_ref o o.to_version) pending active (demoted o ks)
        ≡ ok (promoted o ks)
  update_promoted one d =
      let found =
        update_key_status-find_key (version_ref o o.to_version) active (demoted o ks) p.new
          (AreDistinctKeys-set_status (version_ref o o.from_version) active decrypt_only ks d)
          demoted-new (demoted_free one d) in
      rw p.new_pending at found

  -- A row that is active after the activation is the new version or of another key.
  promoted-active :
      HasOneActive ks
      → (k : ProtectedKey) → find_key k.ref (promoted o ks) ≡ some k
      → k.status ≡ active
      → (k.ref ≡ version_ref o o.to_version)
        ⊎ ((find_key k.ref ks ≡ some k)
            × (k.ref.cluster_id ≡ o.cluster_id → k.ref.key_id ≢ o.key_id))
  promoted-active one k f a =
      let r = version_ref o o.to_version in
      let (j, fj, e) = find_key-of_set_status k.ref r pending active (demoted o ks) k f in
      elim (Bool-cases (same_ref j.ref r)) [
        | inl same ↦
            inl (sym (find_key-ref k.ref (demoted o ks) j fj) ∙ (same_ref_iff j.ref r).0 same)
        | inr differs ↦
            let kept : k ≡ j = ground arith in
            inr (demoted-active one k (fj ∙ ap some (sym kept)) a)
      ]

  pub HasOneActive-promoted : HasOneActive ks → HasOneActive (promoted o ks)
  HasOneActive-promoted one j k fj fk c i aj ak = elim (promoted-active one j fj aj) [
    | inl ej ↦ elim (promoted-active one k fk ak) [
      | inl ek ↦ ap (λ (r : KeyRef). r.version) (ej ∙ sym ek)
      | inr (gk, nk) ↦ absurd (
          nk (sym c ∙ ap (λ (r : KeyRef). r.cluster_id) ej)
            (sym i ∙ ap (λ (r : KeyRef). r.key_id) ej))
    ]
    | inr (gj, nj) ↦ elim (promoted-active one k fk ak) [
      | inl ek ↦
          absurd
            (nj (c ∙ ap (λ (r : KeyRef). r.cluster_id) ek) (i ∙ ap (λ (r : KeyRef). r.key_id) ek))
      | inr (gk, nk) ↦ one j k gj gk c i aj ak
    ]
  ]

  pub AreDistinctKeys-promoted : AreDistinctKeys ks → AreDistinctKeys (promoted o ks)
  AreDistinctKeys-promoted d =
      AreDistinctKeys-set_status (version_ref o o.to_version) pending active (demoted o ks)
        (AreDistinctKeys-set_status (version_ref o o.from_version) active decrypt_only ks d)

  -- The rows of the other references are as before.
  pub find_key-promoted_ne :
      (r : KeyRef) (k : ProtectedKey)
      → r ≢ version_ref o o.from_version
      → r ≢ version_ref o o.to_version
      → find_key r ks ≡ some k
      → find_key r (promoted o ks) ≡ some k
  find_key-promoted_ne r k nf nt f =
      let e = find_key-ref r ks k f in
      let first =
        find_key-set_status r (version_ref o o.from_version) active decrypt_only ks k f
        ∙ ap some (
            updated_other (version_ref o o.from_version) active decrypt_only k
              (λ h. nf (sym e ∙ h))) in
      find_key-set_status r (version_ref o o.to_version) pending active (demoted o ks) k first
      ∙ ap some (updated_other (version_ref o o.to_version) pending active k (λ h. nt (sym e ∙ h)))

  -- The old version is decrypt-only afterwards, and the new one active.
  pub find_key-promoted :
      (find_key (version_ref o o.from_version) (promoted o ks)
        ≡ some (with_status decrypt_only p.old))
      × (find_key (version_ref o o.to_version) (promoted o ks) ≡ some (with_status active p.new))
  find_key-promoted =
      let f = version_ref o o.from_version in
      let t = version_ref o o.to_version in
      let ef = find_key-ref f ks p.old p.old_found in
      let et = find_key-ref t ks p.new p.new_found in
      let hit : updated f active decrypt_only p.old ≡ with_status decrypt_only p.old =
        rw ((same_ref_iff p.old.ref f).1 ef) (rw p.old_active refl) in
      let first = find_key-set_status f f active decrypt_only ks p.old p.old_found ∙ ap some hit in
      let hit2 : updated t pending active p.new ≡ with_status active p.new =
        rw ((same_ref_iff p.new.ref t).1 et) (rw p.new_pending refl) in
      (
        find_key-set_status f t pending active (demoted o ks) (with_status decrypt_only p.old) first
            ∙ ap some (
                updated_other t pending active (with_status decrypt_only p.old)
                  (λ h. versions_differ (sym h ∙ ef))),
        find_key-set_status t t pending active (demoted o ks) p.new demoted-new ∙ ap some hit2,
      )
