-- ===== src/Broker/Keys/Opened.antt =====
-- internal/broker/sqlite.go and internal/keyprotection/protection.go: the ring that is loaded from the
-- rows of a cluster.
use mathlib.Core.List.{Memᴰ}
use openbao_attested_unseal.Prelude.{
  ◌≡◌, refl, sym, ap, ◌∙◌, ◌≤◌, ◌<◌, true, false, ◌||◌, List, [], ◌∷◌, ◌++◌, All, arith, ltb, ◌==◌,
  length,
}
use openbao_attested_unseal.Prelude.Result.{
  ok, guard, guard-ok, >>-ok, wrap_err, wrap_err-ok, invalid_protected_key,
}
use openbao_attested_unseal.Prelude.Text.{Text, text_eq}
use openbao_attested_unseal.Keyring.Key.{
  KeyRef, KeyVersion, validate_version, validate_ref, is_known, decrypts, version_limit, key_size,
  algorithm_aes256gcm, valid_identifier,
}
use openbao_attested_unseal.Keyring.Ring.{Ring, same_ref, contains_ref, key_for_decrypt}
use openbao_attested_unseal.Keyring.Ring.Select.{key_for_decrypt-mem}
use openbao_attested_unseal.Keyring.Ring.Build.{IsRing, AreFresh, count_active, new_ring-ok}
use openbao_attested_unseal.Keyprotection.{
  ProtectedKey, Protector, validate_protected_key, with_material, open_keys, load_keyring,
}
use openbao_attested_unseal.Broker.Keys.{select_cluster, check_rows, protected_keys}
use openbao_attested_unseal.Broker.Keys.Table.{AreDistinctKeys, same_ref_refl, same_ref_ne}
use openbao_attested_unseal.Broker.Keys.Ordered.{
  active_rows, find_key-absent, All-select_cluster, AreDistinctKeys-select_cluster, IsOfCluster,
  active_rows-select_cluster, Memᴰ-select_cluster,
}

-- A row that a query accepts: it is valid, and its version is a uint32.
pub record IsRow (k : ProtectedKey) : Type 0 where
  pub valid : validate_protected_key k ≡ ok tt
  pub positive : 0 < k.ref.version
  pub small : k.ref.version ≤ version_limit

check_rows-All : (ks : List ProtectedKey) → All IsRow ks → check_rows ks ≡ ok ks
unfolding check_rows
check_rows-All [] h = refl
check_rows-All (k ∷ ks) (h, hs) =
    let range : (k.ref.version == 0 || ltb version_limit k.ref.version) ≡ false =
      ground (arith, h.positive, h.small) in
    rw range (rw h.valid (rw (check_rows-All ks hs) refl))

contains_ref-snoc :
    (vs : List KeyVersion) (v : KeyVersion) (r : KeyRef)
    → contains_ref vs r ≡ false
    → same_ref v.ref r ≡ false
    → contains_ref (vs ++ v ∷ []) r ≡ false
unfolding contains_ref
contains_ref-snoc [] v r h d = rw d refl
contains_ref-snoc (u ∷ us) v r h d = ground (arith, contains_ref-snoc us v r)

module _ (p : Protector) (m : ProtectedKey → Text) where
  -- The protector has the profile of the row, and opens it to its metadata with a key of 32 bytes.
  pub record Opens (k : ProtectedKey) : Type 0 where
    pub same_profile : text_eq k.protector_profile p.profile ≡ true
    pub opened : p.open_key k ≡ ok (with_material k (m k))
    pub sized : length (m k) ≡ key_size

  -- The versions that the rows open to.
  abbrev pub opened_versions : List ProtectedKey → List KeyVersion
  opened_versions [] = []
  opened_versions (k ∷ ks) = with_material k (m k) ∷ opened_versions ks

  open_keys-All : (ks : List ProtectedKey) → All Opens ks → open_keys p ks ≡ ok (opened_versions ks)
  unfolding open_keys
  open_keys-All [] h = refl
  open_keys-All (k ∷ ks) (h, hs) = rw h.same_profile (rw h.opened (rw (open_keys-All ks hs) refl))

  count_active-opened_versions :
      (ks : List ProtectedKey) → count_active (opened_versions ks) ≡ active_rows ks
  unfolding active_rows
  count_active-opened_versions [] = refl
  count_active-opened_versions (k ∷ ks) = ground (arith, count_active-opened_versions ks)

  validate_version-opened :
      (k : ProtectedKey) → IsRow k → Opens k → validate_version (with_material k (m k)) ≡ ok tt
  unfolding validate_version validate_protected_key
  validate_version-opened k r h =
      let (ref, h1) = >>-ok (wrap_err (validate_ref k.ref) invalid_protected_key) _ r.valid in
      let (known, h2) = >>-ok (guard (is_known k.status) invalid_protected_key) _ h1 in
      let (algorithm, h3) =
        >>-ok (guard (text_eq k.algorithm algorithm_aes256gcm) invalid_protected_key) _ h2 in
      let (policy, _) = >>-ok (guard (valid_identifier k.policy_id) invalid_protected_key) _ h3 in
      let valid = wrap_err-ok (validate_ref k.ref) invalid_protected_key ref in
      rw valid (
        rw (guard-ok _ invalid_protected_key known) (
          rw (guard-ok _ invalid_protected_key algorithm)
            (rw (guard-ok _ invalid_protected_key policy) (rw h.sized refl))))

  opened_versions-AreFresh :
      (before : List KeyVersion) (ks : List ProtectedKey)
      → AreDistinctKeys ks
      → All IsRow ks
      → All Opens ks
      → ((j : ProtectedKey) → Memᴰ j ks → contains_ref before j.ref ≡ false)
      → AreFresh before (opened_versions ks)
  opened_versions-AreFresh before [] d r h new = tt
  opened_versions-AreFresh before (k ∷ ks) (d, ds) (r, rs) (h, hs) new = (
    validate_version-opened k r h,
    new k (Memᴰ.head refl),
    opened_versions-AreFresh (before ++ with_material k (m k) ∷ []) ks ds rs hs (λ j n.
        contains_ref-snoc before (with_material k (m k)) j.ref (new j (Memᴰ.tail n)) (
          same_ref_ne k.ref j.ref (λ e.
            absurd (cc (rw (sym e) at (find_key-absent k.ref ks j d n), same_ref_refl k.ref))))),
  )

  opened_versions-mem :
      (ks : List ProtectedKey) (j : ProtectedKey)
      → Memᴰ j ks
      → Memᴰ (with_material j (m j)) (opened_versions ks)
  opened_versions-mem [] j n = elim n [ ]
  opened_versions-mem (k ∷ ks) j (Memᴰ.head e) = Memᴰ.head (ap (λ i. with_material i (m i)) e)
  opened_versions-mem (k ∷ ks) j (Memᴰ.tail n) = Memᴰ.tail (opened_versions-mem ks j n)

  opened_versions-IsRing :
      (ks : List ProtectedKey)
      → AreDistinctKeys ks
      → All IsRow ks
      → All Opens ks
      → active_rows ks ≡ 1
      → IsRing (opened_versions ks)
  unfolding contains_ref
  opened_versions-IsRing ks d r h one = record {
    valid = opened_versions-AreFresh [] ks d r h (λ j n. refl);
    one_active = count_active-opened_versions ks ∙ one;
  }

  -- What the loader makes of the rows of a cluster.
  abbrev pub opened_ring : Text → List ProtectedKey → Ring
  opened_ring c ks = record { versions = opened_versions (select_cluster c ks) }

  protected_keys-selected :
      (c : Text) (ks rows : List ProtectedKey)
      → select_cluster c ks ≡ rows
      → check_rows rows ≡ ok rows
      → active_rows rows ≡ 1
      → protected_keys c ks ≡ ok rows
  unfolding protected_keys active_rows
  protected_keys-selected c ks [] e checked one = absurd (omega arith)
  protected_keys-selected c ks (k ∷ rows) e checked one = rw e (rw checked refl)

  -- Rows of one cluster that are distinct, valid and opened, one of them active, load.
  pub load_keyring-rows :
      (c : Text) (ks : List ProtectedKey)
      → AreDistinctKeys ks
      → All IsRow ks
      → All Opens ks
      → All (IsOfCluster c) ks
      → active_rows ks ≡ 1
      → (load_keyring p (protected_keys c ks) ≡ ok (opened_ring c ks))
        × IsRing (opened_ring c ks).versions
  unfolding load_keyring
  load_keyring-rows c ks d r h o one =
      let rows = select_cluster c ks in
      let one' : active_rows rows ≡ 1 = active_rows-select_cluster c ks o ∙ one in
      let ring : IsRing (opened_versions rows) =
        opened_versions-IsRing rows (AreDistinctKeys-select_cluster c ks d)
          (All-select_cluster IsRow c ks r) (All-select_cluster Opens c ks h) one' in
      (
        rw
            (protected_keys-selected c ks rows refl
              (check_rows-All rows (All-select_cluster IsRow c ks r)) one')
            (rw (open_keys-All rows (All-select_cluster Opens c ks h))
              ((new_ring-ok (opened_versions rows) (opened_ring c ks)).1 (ring, refl))),
        ring,
      )

  -- A held row that decrypts is given by the ring that is loaded.
  pub key_for_decrypt-rows :
      (c : Text) (ks : List ProtectedKey) (j : ProtectedKey)
      → IsRing (opened_ring c ks).versions
      → All (IsOfCluster c) ks
      → Memᴰ j ks
      → decrypts j.status ≡ true
      → key_for_decrypt (opened_ring c ks) j.ref ≡ ok (with_material j (m j))
  key_for_decrypt-rows c ks j ring o n usable =
      key_for_decrypt-mem (opened_ring c ks) (with_material j (m j)) ring
        (opened_versions-mem (select_cluster c ks) j (Memᴰ-select_cluster c j ks o n))
      ∙ rw usable refl
