-- ===== src/Broker/Rotation/Loads.antt =====
-- internal/broker/rotation.go, sqlite.go and internal/keyprotection/protection.go: a keyring loads after
-- every sequence of rotation operations.
use mathlib.Core.List.{Memᴰ}
use openbao_attested_unseal.Prelude.{
  ℕ, ◌≡◌, refl, sym, ap, ◌∙◌, true, not, List, [], ◌∷◌, ◌++◌, All, All-append, arith, inl, inr,
  if◌then◌else◌, ◌==◌,
}
use openbao_attested_unseal.Prelude.Result.{
  ok, rotation_invalid_transition, guard, wrap_err, wrap_err-ok, >>-ok,
}
use openbao_attested_unseal.Prelude.Text.{Text, text_eq_iff, is_empty}
use openbao_attested_unseal.Keyring.Key.{active, pending, decrypt_only}
use openbao_attested_unseal.Keyprotection.{ProtectedKey, validate_protected_key}
use openbao_attested_unseal.Broker.Keys.Ordered.{active_rows}
use openbao_attested_unseal.Broker.Keys.Opened.{IsRow}
use openbao_attested_unseal.Broker.Rotation.{
  RotationOperation, RotationTables, RotationStartRequest, validate_rotation_start, start_rotation,
  record_rotation_verification, version_ref,
}
use openbao_attested_unseal.Broker.Rotation.Invariant.{IsSound, IsPaired}
use openbao_attested_unseal.Broker.Rotation.Operations.{query_active-mem}
use openbao_attested_unseal.Broker.Rotation.Start.{
  start_rotation-parts, next_rotation_versions-parts, validate_rotation_start-pending,
  insert_key-parts,
}
use openbao_attested_unseal.Broker.Rotation.Activate.{
  demoted, promoted, update_demoted, update_promoted,
}
use openbao_attested_unseal.Broker.Rotation.Lifecycle.{activate_rotation-cases}
use openbao_attested_unseal.Broker.Rotation.Reach.{
  Step, start, activate, verify, Reachable, fresh, after, fresh_tables, Reachable-IsSound,
}
use openbao_attested_unseal.Keyring.Key.{KeyVersion, decrypts}
use openbao_attested_unseal.Keyring.Ring.{Ring, key_for_decrypt, active_version}
use openbao_attested_unseal.Keyring.Ring.Select.{active_version_total}
use openbao_attested_unseal.Keyprotection.{Protector, with_material, load_keyring}
use openbao_attested_unseal.Broker.Keys.{protected_keys}
use openbao_attested_unseal.Broker.Keys.Ordered.{IsOfCluster}
use openbao_attested_unseal.Broker.Keys.Opened.{
  Opens, opened_ring, load_keyring-rows, key_for_decrypt-rows,
}
use openbao_attested_unseal.Broker.Seed.{BootstrapKeyringRequest, SeedTables, bootstrap_keyring}
use openbao_attested_unseal.Broker.Seed.Bootstrapped.{bootstrap_keyring-parts}
use openbao_attested_unseal.Broker.Rotation.Held.{
  IsHeld, IsVersionOf, active_rows-snoc, active_rows-demote, active_rows-promote,
  update_key_status-count, IsRow-updated, IsVersionOf-updated, All-mem, All-set_status,
}

module _ (k : ProtectedKey) where
  start_rotation-IsHeld :
      (r : RotationStartRequest) (clock : ℕ) (t t' : RotationTables) (o : RotationOperation)
      → IsHeld k t.keys
      → start_rotation r clock t ≡ ok (o, t')
      → IsHeld k t'.keys
  unfolding validate_rotation_start
  start_rotation-IsHeld r clock t t' o held h =
      let (f, v, keys, ops, valid, free, next, e, ik, io, oe, te) =
        start_rotation-parts r clock t t' o h in
      let (_, v1) =
        >>-ok (guard (not (is_empty r.operation_id)) rotation_invalid_transition) _ valid in
      let (v2, _) =
        >>-ok (wrap_err (validate_protected_key r.key) rotation_invalid_transition) _ v1 in
      let (unheld, ke) = insert_key-parts r.key t.keys keys ik in
      let (q, m, fp, fs, vs) =
        next_rotation_versions-parts r.key.ref.cluster_id r.key.ref.key_id t.keys f v next in
      let (j, jm, jr, _) = query_active-mem r.key.ref.cluster_id r.key.ref.key_id t.keys f q in
      let of_key = All-mem (IsVersionOf k) t.keys j held.versions jm in
      let row : IsRow r.key = record {
        valid = wrap_err-ok (validate_protected_key r.key) rotation_invalid_transition v2;
        positive = omega arith;
        small = omega arith;
      } in
      let same : t'.keys ≡ t.keys ++ r.key ∷ [] = cc in
      rw same (record {
        versions =
            All-append (IsVersionOf k) t.keys (r.key ∷ []) held.versions ((rw jr at of_key), tt);
        rows = All-append IsRow t.keys (r.key ∷ []) held.rows (row, tt);
        one_active =
            active_rows-snoc t.keys r.key (validate_rotation_start-pending r valid)
            ∙ held.one_active;
      })

  IsHeld-activated :
      (o : RotationOperation) (now : ℕ) (t : RotationTables)
      → IsSound t
      → IsPaired t.keys o
      → IsHeld k t.keys
      → IsHeld k (promoted o t.keys)
  IsHeld-activated o now t s p held =
      let f = version_ref o o.from_version in
      let g = version_ref o o.to_version in
      let one =
        update_key_status-count f active decrypt_only t.keys (demoted o t.keys)
          (update_demoted t.keys o p s.distinct) in
      let two =
        update_key_status-count g pending active (demoted o t.keys) (promoted o t.keys)
          (update_promoted t.keys o p s.one_active s.distinct) in
      record {
        versions =
            All-set_status (IsVersionOf k) g pending active (demoted o t.keys)
              (IsVersionOf-updated k g pending active)
              (All-set_status (IsVersionOf k) f active decrypt_only t.keys
                (IsVersionOf-updated k f active decrypt_only) held.versions);
        rows =
            All-set_status IsRow g pending active (demoted o t.keys)
              (λ j. IsRow-updated g pending active j refl)
              (All-set_status IsRow f active decrypt_only t.keys
                (λ j. IsRow-updated f active decrypt_only j refl) held.rows);
        one_active = omega (
          arith,
          one,
          two,
          held.one_active,
          active_rows-demote f t.keys,
          active_rows-promote g (demoted o t.keys),
        );
      }

  IsHeld-Step : (t t' : RotationTables) → IsSound t → IsHeld k t.keys → Step t t' → IsHeld k t'.keys
  unfolding record_rotation_verification
  IsHeld-Step t t' s held (start r clock o h) = start_rotation-IsHeld r clock t t' o held h
  IsHeld-Step t t' s held (activate id at clock o' h) =
      elim (activate_rotation-cases id at clock t t' o' s h) [
        | inl same ↦ rw same at held
        | inr (o, f, st, p, same) ↦
            rw (sym same) (IsHeld-activated o (if at == 0 then clock else at) t s p held)
      ]
  IsHeld-Step t t' s held (verify id name detail at clock v h) =
      let same : t.keys ≡ t'.keys = ground arith in rw same at held

  Reachable-IsHeld :
      (t : RotationTables)
      → validate_protected_key k ≡ ok tt
      → k.status ≡ active
      → k.ref.version ≡ 1
      → Reachable k t
      → IsHeld k t.keys
  unfolding active_rows
  Reachable-IsHeld t valid a one fresh = record {
    versions = ((refl, refl), tt);
    rows = (record { valid = valid; positive = omega arith; small = omega arith }, tt);
    one_active = rw a refl;
  }
  Reachable-IsHeld t valid a one (after {t = u} run step) =
      IsHeld-Step u t (Reachable-IsSound k u run) (Reachable-IsHeld u valid a one run) step

  All-IsOfCluster :
      (ks : List ProtectedKey) → All (IsVersionOf k) ks → All (IsOfCluster k.ref.cluster_id) ks
  All-IsOfCluster [] h = tt
  All-IsOfCluster (j ∷ ks) (h, hs) =
      ((text_eq_iff j.ref.cluster_id k.ref.cluster_id).1 h.0, All-IsOfCluster ks hs)

module _ (p : Protector) (m : ProtectedKey → Text) where
  -- A keyring that is bootstrapped into a database without keys and then rotated in any way loads,
  -- where the protector opens each row of it to a key of 32 bytes: the loader returns a ring with an
  -- active version, and each row that is active or decrypt-only is found by its reference, with the
  -- key that it was opened to.
  pub load_keyring-bootstrap_keyring :
      (r : BootstrapKeyringRequest) (s s' : SeedTables) (t : RotationTables) (j : ProtectedKey)
      → s.keys ≡ []
      → bootstrap_keyring r s ≡ ok s'
      → Reachable r.key t
      → All (Opens p m) t.keys
      → Memᴰ j t.keys
      → decrypts j.status ≡ true
      → (s'.keys ≡ (fresh_tables r.key).keys)
        × ((ring : Ring) × (load_keyring p (protected_keys r.key.ref.cluster_id t.keys) ≡ ok ring)
            × ((v : KeyVersion) × (active_version ring ≡ ok v))
            × (key_for_decrypt ring j.ref ≡ ok (with_material j (m j))))
  load_keyring-bootstrap_keyring r s s' t j empty done run opens n usable =
      let (valid, a, one, added) = bootstrap_keyring-parts r s s' done in
      let held = Reachable-IsHeld r.key t valid a one run in
      let c = r.key.ref.cluster_id in
      let of_cluster = All-IsOfCluster r.key t.keys held.versions in
      let sound = Reachable-IsSound r.key t run in
      let (loaded, ring) =
        load_keyring-rows p m c t.keys sound.distinct held.rows opens of_cluster held.one_active in
      (
        added ∙ ap (λ ks. ks ++ r.key ∷ []) empty,
        (
          opened_ring p m c t.keys,
          loaded,
          active_version_total (opened_ring p m c t.keys) ring,
          key_for_decrypt-rows p m c t.keys j ring of_cluster n usable,
        ),
      )
