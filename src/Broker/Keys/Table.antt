-- ===== src/Broker/Keys/Table.antt =====
-- sqlite.go: the table key_versions under its statements. The primary key is the invariant.
use mathlib.Core.List.{Memᴰ}
use openbao_attested_unseal.Prelude.{
  ◌≡◌, ◌≢◌, refl, sym, ◌∙◌, true, false, not, ◌&&◌, none, some, List, [], ◌∷◌, ◌++◌, arith, inl,
  inr, Bool-cases, Option-cases, if◌then◌else◌, ◌==◌,
}
use openbao_attested_unseal.Prelude.Result.{ok}
use openbao_attested_unseal.Prelude.Text.{text_eq_iff, text_eq_refl}
use openbao_attested_unseal.Keyring.Key.{KeyRef, Status, active, is_active, unrecognized}
use openbao_attested_unseal.Keyring.Ring.{same_ref}
use openbao_attested_unseal.Keyring.Ring.Select.{same_ref_iff}
use openbao_attested_unseal.Keyprotection.{ProtectedKey}
use openbao_attested_unseal.Broker.Keys.{
  of_key, same_status, find_key, has_other_active, with_status, set_status, count_affected,
  update_key_status,
}

-- The rows have distinct primary keys.
abbrev pub AreDistinctKeys : List ProtectedKey → Type 0
AreDistinctKeys [] = Unit
AreDistinctKeys (k ∷ ks) = (find_key k.ref ks ≡ none) × AreDistinctKeys ks

pub same_ref_refl : (r : KeyRef) → same_ref r r ≡ true
same_ref_refl r = (same_ref_iff r r).1 refl

pub same_ref_ne : (r s : KeyRef) → r ≢ s → same_ref r s ≡ false
same_ref_ne r s h = elim (Bool-cases (same_ref r s)) [
  | inl same ↦ absurd (h ((same_ref_iff r s).0 same))
  | inr differs ↦ differs
]

pub find_key-ref :
    (r : KeyRef) (ks : List ProtectedKey) (k : ProtectedKey) → find_key r ks ≡ some k → k.ref ≡ r
unfolding find_key
find_key-ref r [] k h = cc
find_key-ref r (j ∷ ks) k h = elim (Bool-cases (same_ref j.ref r)) [
  | inl same ↦ ground (arith, (same_ref_iff j.ref r).0 same)
  | inr differs ↦ find_key-ref r ks k (ground arith)
]

pub find_key-snoc_some :
    (r : KeyRef) (ks : List ProtectedKey) (k j : ProtectedKey)
    → find_key r ks ≡ some j
    → find_key r (ks ++ k ∷ []) ≡ some j
unfolding find_key
find_key-snoc_some r [] k j h = cc
find_key-snoc_some r (i ∷ ks) k j h = ground (arith, find_key-snoc_some r ks k j)

pub find_key-snoc_none :
    (r : KeyRef) (ks : List ProtectedKey) (k : ProtectedKey)
    → find_key r ks ≡ none
    → find_key r (ks ++ k ∷ []) ≡ (if same_ref k.ref r then some k else none)
unfolding find_key
find_key-snoc_none r [] k h = refl
find_key-snoc_none r (i ∷ ks) k h = ground (arith, find_key-snoc_none r ks k)

pub AreDistinctKeys-snoc :
    (ks : List ProtectedKey) (k : ProtectedKey)
    → AreDistinctKeys ks
    → find_key k.ref ks ≡ none
    → AreDistinctKeys (ks ++ k ∷ [])
unfolding find_key
AreDistinctKeys-snoc [] k h free = (refl, tt)
AreDistinctKeys-snoc (j ∷ ks) k (h, hs) free =
    let differs : same_ref k.ref j.ref ≡ false =
      same_ref_ne k.ref j.ref
        (λ e. absurd (ground (arith, (same_ref_iff j.ref k.ref).1 (sym e)))) in
    (find_key-snoc_none j.ref ks k h ∙ rw differs refl, AreDistinctKeys-snoc ks k hs (ground arith))

pub find_key-mem :
    (ks : List ProtectedKey) (k : ProtectedKey)
    → AreDistinctKeys ks
    → Memᴰ k ks
    → find_key k.ref ks ≡ some k
unfolding find_key
find_key-mem [] k h m = elim m [ ]
find_key-mem (j ∷ ks) k h (Memᴰ.head e) = rw e (rw (same_ref_refl j.ref) refl)
find_key-mem (j ∷ ks) k (h, hs) (Memᴰ.tail m) =
    let found = find_key-mem ks k hs m in
    let differs : same_ref j.ref k.ref ≡ false =
      same_ref_ne j.ref k.ref (λ e. absurd (cc (rw e at h))) in
    rw differs found

-- What a statement makes of one row.
abbrev pub updated : KeyRef → Status → Status → ProtectedKey → ProtectedKey
updated r old new k = if same_ref k.ref r && same_status k.status old then with_status new k else k

pub updated-ref :
    (r : KeyRef) (old new : Status) (k : ProtectedKey) → (updated r old new k).ref ≡ k.ref
updated-ref r old new k = ground arith

pub find_key-set_status-none :
    (s r : KeyRef) (old new : Status) (ks : List ProtectedKey)
    → find_key s ks ≡ none
    → find_key s (set_status r old new ks) ≡ none
unfolding find_key set_status
find_key-set_status-none s r old new [] h = refl
find_key-set_status-none s r old new (k ∷ ks) h =
    rw (updated-ref r old new k) (ground (arith, find_key-set_status-none s r old new ks))

pub find_key-set_status :
    (s r : KeyRef) (old new : Status) (ks : List ProtectedKey) (k : ProtectedKey)
    → find_key s ks ≡ some k
    → find_key s (set_status r old new ks) ≡ some (updated r old new k)
unfolding find_key set_status
find_key-set_status s r old new [] k h = cc
find_key-set_status s r old new (j ∷ ks) k h = elim (Bool-cases (same_ref j.ref s)) [
  | inl same ↦ let e : j ≡ k = ground arith in rw (updated-ref r old new j) (rw same (rw e refl))
  | inr differs ↦
      rw (updated-ref r old new j)
        (rw differs (find_key-set_status s r old new ks k (ground arith)))
]

pub AreDistinctKeys-set_status :
    (r : KeyRef) (old new : Status) (ks : List ProtectedKey)
    → AreDistinctKeys ks
    → AreDistinctKeys (set_status r old new ks)
unfolding set_status
AreDistinctKeys-set_status r old new [] h = tt
AreDistinctKeys-set_status r old new (k ∷ ks) (h, hs) = (
  rw (updated-ref r old new k) (find_key-set_status-none k.ref r old new ks h),
  AreDistinctKeys-set_status r old new ks hs,
)

pub same_status_refl : (s : Status) → same_status s s ≡ true
same_status_refl Status.pending = refl
same_status_refl Status.active = refl
same_status_refl Status.decrypt_only = refl
same_status_refl Status.retired = refl
same_status_refl (unrecognized a) = text_eq_refl a

count_affected-none :
    (r : KeyRef) (old : Status) (ks : List ProtectedKey)
    → find_key r ks ≡ none
    → count_affected r old ks ≡ 0
unfolding find_key count_affected
count_affected-none r old [] h = refl
count_affected-none r old (k ∷ ks) h = ground (arith, count_affected-none r old ks)

count_affected-find_key :
    (r : KeyRef) (ks : List ProtectedKey) (k : ProtectedKey)
    → AreDistinctKeys ks
    → find_key r ks ≡ some k
    → count_affected r k.status ks ≡ 1
unfolding find_key count_affected
count_affected-find_key r [] k d h = cc
count_affected-find_key r (j ∷ ks) k (d, ds) h = elim (Bool-cases (same_ref j.ref r)) [
  | inl same ↦
      let e : j ≡ k = ground arith in
      let rest : count_affected r k.status ks ≡ 0 =
        count_affected-none r k.status ks (rw (sym ((same_ref_iff j.ref r).0 same)) d) in
      rw same (rw rest (rw e (rw (same_status_refl k.status) refl)))
  | inr differs ↦ rw differs (count_affected-find_key r ks k ds (ground arith))
]

-- No two active rows belong to one key.
abbrev pub HasOneActive : List ProtectedKey → Type 0
HasOneActive ks =
    (j k : ProtectedKey)
    → find_key j.ref ks ≡ some j
    → find_key k.ref ks ≡ some k
    → j.ref.cluster_id ≡ k.ref.cluster_id
    → j.ref.key_id ≡ k.ref.key_id
    → j.status ≡ active
    → k.status ≡ active
    → j.ref.version ≡ k.ref.version

some-injective : (j k : ProtectedKey) → some j ≡ some k → j ≡ k
some-injective j k e = cc

-- A row that the index test finds.
pub has_other_active-mem :
    (r : KeyRef) (ks : List ProtectedKey)
    → has_other_active r ks ≡ true
    → (k : ProtectedKey) × Memᴰ k ks
      × (k.ref.cluster_id ≡ r.cluster_id)
      × (k.ref.key_id ≡ r.key_id)
      × (k.status ≡ active)
      × (k.ref.version ≢ r.version)
unfolding has_other_active
has_other_active-mem r [] h = cc
has_other_active-mem r (k ∷ ks) h =
    elim (Bool-cases (
      of_key r.cluster_id r.key_id k.ref
      && (is_active k.status && not (k.ref.version == r.version)))) [
        | inl here ↦ (
          k,
          Memᴰ.head refl,
          ground (arith, text_eq_iff k.ref.cluster_id r.cluster_id),
          ground (arith, text_eq_iff k.ref.key_id r.key_id),
          ground arith,
          ground arith,
        )
        | inr later ↦
            let (j, m, c, i, a, v) = has_other_active-mem r ks (ground arith) in
            (j, Memᴰ.tail m, c, i, a, v)
      ]

-- A row after a statement comes from a row before it.
pub find_key-of_set_status :
    (s r : KeyRef) (old new : Status) (ks : List ProtectedKey) (k : ProtectedKey)
    → find_key s (set_status r old new ks) ≡ some k
    → (j : ProtectedKey) × (find_key s ks ≡ some j) × (k ≡ updated r old new j)
find_key-of_set_status s r old new ks k h = elim (Option-cases (find_key s ks)) [
  | inl missing ↦ absurd (ground (arith, find_key-set_status-none s r old new ks missing))
  | inr (j, found) ↦ (
    j,
    found,
    some-injective k (updated r old new j) (sym h ∙ find_key-set_status s r old new ks j found),
  )
]

pub updated_other :
    (r : KeyRef) (old new : Status) (k : ProtectedKey) → k.ref ≢ r → updated r old new k ≡ k
updated_other r old new k h = rw (same_ref_ne k.ref r h) refl

update_key_status_eq :
    (r : KeyRef) (old new : Status) (ks : List ProtectedKey)
    → count_affected r old ks ≡ 1
    → (is_active new && has_other_active r ks) ≡ false
    → update_key_status r old new ks ≡ ok (set_status r old new ks)
unfolding update_key_status
update_key_status_eq r old new ks one free = ground arith

-- An update of a row that is held with the old status succeeds, where the index has no objection.
pub update_key_status-find_key :
    (r : KeyRef) (new : Status) (ks : List ProtectedKey) (k : ProtectedKey)
    → AreDistinctKeys ks
    → find_key r ks ≡ some k
    → (is_active new && has_other_active r ks) ≡ false
    → update_key_status r k.status new ks ≡ ok (set_status r k.status new ks)
update_key_status-find_key r new ks k d found free =
    update_key_status_eq r k.status new ks (count_affected-find_key r ks k d found) free

pub update_key_status-ok :
    (r : KeyRef) (old new : Status) (ks ks' : List ProtectedKey)
    → update_key_status r old new ks ≡ ok ks'
    → ks' ≡ set_status r old new ks
unfolding update_key_status
update_key_status-ok r old new ks ks' h = ground arith
