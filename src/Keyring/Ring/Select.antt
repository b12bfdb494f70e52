-- ===== src/Keyring/Ring/Select.antt =====
-- Ring.Active and Ring.keyForDecrypt on the rings that NewRing builds.
use mathlib.Core.List.{Memᴰ}
use openbao_attested_unseal.Prelude.{
  ◌≡◌, refl, ap, sym, ◌∙◌, true, false, List, [], ◌∷◌, ◌++◌, arith, inl, inr, ◌↔◌, if◌then◌else◌,
  Bool-cases,
}
use openbao_attested_unseal.Prelude.Result.{ok, err, key_not_usable, key_not_found}
use openbao_attested_unseal.Prelude.Text.{text_eq_iff, text_eq_refl}
use openbao_attested_unseal.Keyring.Key.{KeyRef, KeyVersion, active, is_active, can_decrypt}
use openbao_attested_unseal.Keyring.Ring.{
  Ring, same_ref, contains_ref, first_active, active_version, find_for_decrypt, key_for_decrypt,
}
use openbao_attested_unseal.Keyring.Ring.Build.{count_active, AreFresh, IsRing}

pub same_ref_iff : (a b : KeyRef) → (same_ref a b ≡ true) ↔ (a ≡ b)
unfolding same_ref
same_ref_iff a b = (
  λ h. ground (arith, text_eq_iff a.cluster_id b.cluster_id, text_eq_iff a.key_id b.key_id),
  λ e. rw e (ground (arith, text_eq_refl b.cluster_id, text_eq_refl b.key_id)),
)

contains_ref-snoc :
    (vs : List KeyVersion) (v : KeyVersion) (ref : KeyRef)
    → contains_ref (vs ++ v ∷ []) ref ≡ false
    → (contains_ref vs ref ≡ false) × (same_ref v.ref ref ≡ false)
unfolding contains_ref
contains_ref-snoc [] v ref h = ground arith
contains_ref-snoc (w ∷ vs) v ref h = ground (arith, contains_ref-snoc vs v ref)

-- A version of a fresh list has a reference that was not there before.
fresh_of_mem :
    (before vs : List KeyVersion) (w : KeyVersion)
    → AreFresh before vs
    → Memᴰ w vs
    → contains_ref before w.ref ≡ false
fresh_of_mem before [] w h m = elim m [ ]
fresh_of_mem before (v ∷ vs) w h (Memᴰ.head e) = rw e h.1
fresh_of_mem before (v ∷ vs) w h (Memᴰ.tail m) =
    (contains_ref-snoc before v w.ref (fresh_of_mem (before ++ v ∷ []) vs w h.2 m)).0

find_for_decrypt-mem :
    (before vs : List KeyVersion) (w : KeyVersion)
    → AreFresh before vs
    → Memᴰ w vs
    → find_for_decrypt w.ref vs ≡ (if can_decrypt w then ok w else err key_not_usable)
unfolding find_for_decrypt
find_for_decrypt-mem before [] w h m = elim m [ ]
find_for_decrypt-mem before (v ∷ vs) w h (Memᴰ.head e) =
    rw (← e, (same_ref_iff w.ref w.ref).1 refl) refl
find_for_decrypt-mem before (v ∷ vs) w h (Memᴰ.tail m) =
    rw ((contains_ref-snoc before v w.ref (fresh_of_mem (before ++ v ∷ []) vs w h.2 m)).1)
      (find_for_decrypt-mem (before ++ v ∷ []) vs w h.2 m)

-- In a ring the lookup by the reference of a held version gives that version exactly when its
-- status is active or decrypt-only, and the usability error otherwise.
pub key_for_decrypt-mem :
    (r : Ring) (w : KeyVersion)
    → IsRing r.versions
    → Memᴰ w r.versions
    → key_for_decrypt r w.ref ≡ (if can_decrypt w then ok w else err key_not_usable)
unfolding key_for_decrypt
key_for_decrypt-mem r w h m = find_for_decrypt-mem [] r.versions w h.valid m

find_for_decrypt-ok :
    (ref : KeyRef) (vs : List KeyVersion) (v : KeyVersion)
    → find_for_decrypt ref vs ≡ ok v
    → Memᴰ v vs × (v.ref ≡ ref) × (can_decrypt v ≡ true)
unfolding find_for_decrypt
find_for_decrypt-ok ref [] v h = cc
find_for_decrypt-ok ref (w ∷ vs) v h = elim (Bool-cases (same_ref w.ref ref)) [
  | inl same ↦
      let e : w ≡ v = ground arith in
      (
        Memᴰ.head (sym e),
        ap (λ (k : KeyVersion). k.ref) (sym e) ∙ (same_ref_iff w.ref ref).0 same,
        ground arith,
      )
  | inr differs ↦ let (m, e, d) = find_for_decrypt-ok ref vs v (ground arith) in (Memᴰ.tail m, e, d)
]

-- What the lookup returns is a held version of that reference, and usable.
pub key_for_decrypt-ok :
    (r : Ring) (ref : KeyRef) (v : KeyVersion)
    → key_for_decrypt r ref ≡ ok v
    → Memᴰ v r.versions × (v.ref ≡ ref) × (can_decrypt v ≡ true)
unfolding key_for_decrypt
key_for_decrypt-ok r ref v h = find_for_decrypt-ok ref r.versions v h

find_for_decrypt-unknown :
    (ref : KeyRef) (vs : List KeyVersion)
    → contains_ref vs ref ≡ false
    → find_for_decrypt ref vs ≡ err key_not_found
unfolding find_for_decrypt contains_ref
find_for_decrypt-unknown ref [] h = refl
find_for_decrypt-unknown ref (v ∷ vs) h = ground (arith, find_for_decrypt-unknown ref vs)

pub key_for_decrypt-unknown :
    (r : Ring) (ref : KeyRef)
    → contains_ref r.versions ref ≡ false
    → key_for_decrypt r ref ≡ err key_not_found
unfolding key_for_decrypt
key_for_decrypt-unknown r ref h = find_for_decrypt-unknown ref r.versions h

none_active :
    (vs : List KeyVersion) (w : KeyVersion)
    → count_active vs ≡ 0
    → Memᴰ w vs
    → is_active w.status ≡ false
none_active [] w h m = elim m [ ]
none_active (v ∷ vs) w h (Memᴰ.head e) = rw e (ground arith)
none_active (v ∷ vs) w h (Memᴰ.tail m) = none_active vs w (ground arith) m

first_active_unique :
    (vs : List KeyVersion)
    → count_active vs ≡ 1
    → (v : KeyVersion) × (first_active vs ≡ ok v)
      × Memᴰ v vs
      × (v.status ≡ active)
      × ((w : KeyVersion) → Memᴰ w vs → w.status ≡ active → w ≡ v)
unfolding first_active
first_active_unique [] h = absurd (omega arith)
first_active_unique (v ∷ vs) h = elim (Bool-cases (is_active v.status)) [
  | inl here ↦ (v, rw here refl, Memᴰ.head refl, ground arith, only here)
  | inr later ↦
      let (u, e, m, a, unique) = first_active_unique vs (ground arith) in
      (u, rw later e, Memᴰ.tail m, a, above later u unique)
]
  where
    only :
        is_active v.status ≡ true → (w : KeyVersion) → Memᴰ w (v ∷ vs) → w.status ≡ active → w ≡ v
    only here w (Memᴰ.head e) a = e
    only here w (Memᴰ.tail m) a = ground (arith, none_active vs w (ground arith) m)

    above :
        is_active v.status ≡ false
        → (u : KeyVersion) → ((w : KeyVersion) → Memᴰ w vs → w.status ≡ active → w ≡ u)
        → (w : KeyVersion) → Memᴰ w (v ∷ vs)
        → w.status ≡ active
        → w ≡ u
    above later u unique w (Memᴰ.head e) a = ground (arith, ap (λ (k : KeyVersion). k.status) e)
    above later u unique w (Memᴰ.tail m) a = unique w m a

-- A ring has an active version, Active returns it, and no other version of the ring is active.
pub active_version_unique :
    (r : Ring)
    → IsRing r.versions
    → (v : KeyVersion) × (active_version r ≡ ok v)
      × Memᴰ v r.versions
      × (v.status ≡ active)
      × ((w : KeyVersion) → Memᴰ w r.versions → w.status ≡ active → w ≡ v)
unfolding active_version
active_version_unique r h = first_active_unique r.versions h.one_active

-- In a ring Active returns the versions that the ring holds as active, and nothing else.
pub active_version_iff :
    (r : Ring) (v : KeyVersion)
    → IsRing r.versions
    → (active_version r ≡ ok v) ↔ (Memᴰ v r.versions × (v.status ≡ active))
active_version_iff r v h =
    let (u, found, m, a, unique) = active_version_unique r h in
    (
      λ e. let same : u ≡ v = cc in (rw same at m, rw same at a),
      λ (mv, av). found ∙ ap ok (sym (unique v mv av)),
    )

-- Active succeeds on every ring.
pub active_version_total :
    (r : Ring) → IsRing r.versions → (v : KeyVersion) × (active_version r ≡ ok v)
active_version_total r h = let (u, found, m, a, unique) = active_version_unique r h in (u, found)
