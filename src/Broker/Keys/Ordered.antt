-- ===== src/Broker/Keys/Ordered.antt =====
-- internal/broker/sqlite.go: the rows of a cluster in their order hold what the table holds.
use mathlib.Core.List.{Memᴰ}
use openbao_attested_unseal.Prelude.{
  ◌≡◌, refl, ◌∙◌, ℕ, ◌+◌, true, false, none, List, [], ◌∷◌, All, inl, inr, Bool-cases, arith,
  if◌then◌else◌,
}
use openbao_attested_unseal.Prelude.Text.{Text, text_eq}
use openbao_attested_unseal.Keyring.Key.{KeyRef, is_active}
use openbao_attested_unseal.Keyring.Ring.{same_ref}
use openbao_attested_unseal.Keyprotection.{ProtectedKey}
use openbao_attested_unseal.Broker.Keys.{find_key, before, insert_ordered, select_cluster}
use openbao_attested_unseal.Broker.Keys.Table.{AreDistinctKeys, same_ref_refl, same_ref_ne}

-- How many rows are active.
unfoldable pub active_rows : List ProtectedKey → ℕ
active_rows [] = 0
active_rows (k ∷ ks) = let n = active_rows ks in if is_active k.status then n + 1 else n

same_ref_sym : (r s : KeyRef) → same_ref r s ≡ false → same_ref s r ≡ false
same_ref_sym r s h = same_ref_ne s r (λ e. absurd (cc (rw e at h, same_ref_refl r)))

pub find_key-absent :
    (r : KeyRef) (ks : List ProtectedKey) (j : ProtectedKey)
    → find_key r ks ≡ none
    → Memᴰ j ks
    → same_ref j.ref r ≡ false
unfolding find_key
find_key-absent r [] j free m = elim m [ ]
find_key-absent r (k ∷ ks) j free (Memᴰ.head e) = rw e (ground arith)
find_key-absent r (k ∷ ks) j free (Memᴰ.tail m) = find_key-absent r ks j (ground arith) m

find_key-insert_ordered :
    (r : KeyRef) (k : ProtectedKey) (ks : List ProtectedKey)
    → same_ref k.ref r ≡ false
    → find_key r ks ≡ none
    → find_key r (insert_ordered k ks) ≡ none
unfolding find_key insert_ordered
find_key-insert_ordered r k [] differs free = rw differs refl
find_key-insert_ordered r k (l ∷ ls) differs free =
    ground (arith, find_key-insert_ordered r k ls differs)

AreDistinctKeys-insert_ordered :
    (k : ProtectedKey) (ks : List ProtectedKey)
    → find_key k.ref ks ≡ none
    → AreDistinctKeys ks
    → AreDistinctKeys (insert_ordered k ks)
unfolding find_key insert_ordered
AreDistinctKeys-insert_ordered k [] free d = (refl, tt)
AreDistinctKeys-insert_ordered k (l ∷ ls) free (d, ds) = elim (Bool-cases (before k.ref l.ref)) [
  | inl e ↦ rw e (free, (d, ds))
  | inr e ↦
      let differs : same_ref l.ref k.ref ≡ false = ground arith in
      rw e (
        find_key-insert_ordered l.ref k ls (same_ref_sym l.ref k.ref differs) d,
        AreDistinctKeys-insert_ordered k ls (ground arith) ds,
      )
]

active_rows-insert_ordered :
    (k : ProtectedKey) (ks : List ProtectedKey)
    → active_rows (insert_ordered k ks) ≡ active_rows (k ∷ ks)
unfolding active_rows insert_ordered
active_rows-insert_ordered k [] = refl
active_rows-insert_ordered k (l ∷ ls) = ground (arith, active_rows-insert_ordered k ls)

Memᴰ-insert_ordered :
    (j k : ProtectedKey) (ks : List ProtectedKey) → Memᴰ j (k ∷ ks) → Memᴰ j (insert_ordered k ks)
unfolding insert_ordered
Memᴰ-insert_ordered j k [] m = m
Memᴰ-insert_ordered j k (l ∷ ls) (Memᴰ.head h) = elim (Bool-cases (before k.ref l.ref)) [
  | inl e ↦ rw e (Memᴰ.head h)
  | inr e ↦ rw e (Memᴰ.tail (Memᴰ-insert_ordered j k ls (Memᴰ.head h)))
]
Memᴰ-insert_ordered j k (l ∷ ls) (Memᴰ.tail (Memᴰ.head h)) =
    elim (Bool-cases (before k.ref l.ref)) [
      | inl e ↦ rw e (Memᴰ.tail (Memᴰ.head h))
      | inr e ↦ rw e (Memᴰ.head h)
    ]
Memᴰ-insert_ordered j k (l ∷ ls) (Memᴰ.tail (Memᴰ.tail n)) =
    elim (Bool-cases (before k.ref l.ref)) [
      | inl e ↦ rw e (Memᴰ.tail (Memᴰ.tail n))
      | inr e ↦ rw e (Memᴰ.tail (Memᴰ-insert_ordered j k ls (Memᴰ.tail n)))
    ]

module _ {ℓ} (P : ProtectedKey → Type ℓ) where
  All-insert_ordered :
      (k : ProtectedKey) (ks : List ProtectedKey) → P k → All P ks → All P (insert_ordered k ks)
  unfolding insert_ordered
  All-insert_ordered k [] h hs = (h, tt)
  All-insert_ordered k (l ∷ ls) h (hl, hs) = elim (Bool-cases (before k.ref l.ref)) [
    | inl e ↦ rw e (h, (hl, hs))
    | inr e ↦ rw e (hl, All-insert_ordered k ls h hs)
  ]

  pub All-select_cluster :
      (c : Text) (ks : List ProtectedKey) → All P ks → All P (select_cluster c ks)
  unfolding select_cluster
  All-select_cluster c [] hs = tt
  All-select_cluster c (k ∷ ks) (h, hs) = elim (Bool-cases (text_eq k.ref.cluster_id c)) [
    | inl e ↦ rw e (All-insert_ordered k (select_cluster c ks) h (All-select_cluster c ks hs))
    | inr e ↦ rw e (All-select_cluster c ks hs)
  ]

find_key-select_cluster :
    (r : KeyRef) (c : Text) (ks : List ProtectedKey)
    → find_key r ks ≡ none
    → find_key r (select_cluster c ks) ≡ none
unfolding find_key select_cluster
find_key-select_cluster r c [] free = refl
find_key-select_cluster r c (k ∷ ks) free =
    let differs : same_ref k.ref r ≡ false = ground arith in
    let ih = find_key-select_cluster r c ks (ground arith) in
    elim (Bool-cases (text_eq k.ref.cluster_id c)) [
      | inl e ↦ rw e (find_key-insert_ordered r k (select_cluster c ks) differs ih)
      | inr e ↦ rw e ih
    ]

pub AreDistinctKeys-select_cluster :
    (c : Text) (ks : List ProtectedKey) → AreDistinctKeys ks → AreDistinctKeys (select_cluster c ks)
unfolding select_cluster
AreDistinctKeys-select_cluster c [] d = tt
AreDistinctKeys-select_cluster c (k ∷ ks) (d, ds) =
    let ih = AreDistinctKeys-select_cluster c ks ds in
    elim (Bool-cases (text_eq k.ref.cluster_id c)) [
      | inl e ↦ rw e (
          AreDistinctKeys-insert_ordered k (select_cluster c ks)
            (find_key-select_cluster k.ref c ks d) ih)
      | inr e ↦ rw e ih
    ]

-- The row is of the cluster.
abbrev pub IsOfCluster : Text → ProtectedKey → Type 0
IsOfCluster c k = text_eq k.ref.cluster_id c ≡ true

pub active_rows-select_cluster :
    (c : Text) (ks : List ProtectedKey)
    → All (IsOfCluster c) ks
    → active_rows (select_cluster c ks) ≡ active_rows ks
unfolding select_cluster active_rows
active_rows-select_cluster c [] hs = refl
active_rows-select_cluster c (k ∷ ks) (h, hs) = rw h (
    active_rows-insert_ordered k (select_cluster c ks)
    ∙ ground (arith, active_rows-select_cluster c ks hs))

pub Memᴰ-select_cluster :
    (c : Text) (j : ProtectedKey) (ks : List ProtectedKey)
    → All (IsOfCluster c) ks
    → Memᴰ j ks
    → Memᴰ j (select_cluster c ks)
unfolding select_cluster
Memᴰ-select_cluster c j [] hs m = elim m [ ]
Memᴰ-select_cluster c j (k ∷ ks) (h, hs) (Memᴰ.head e) =
    rw h (Memᴰ-insert_ordered j k (select_cluster c ks) (Memᴰ.head e))
Memᴰ-select_cluster c j (k ∷ ks) (h, hs) (Memᴰ.tail m) =
    rw h
      (Memᴰ-insert_ordered j k (select_cluster c ks) (Memᴰ.tail (Memᴰ-select_cluster c j ks hs m)))
