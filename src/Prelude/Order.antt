-- ===== src/Prelude/Order.antt =====
-- slices.Sort as an insertion sort by a total test, and the order of strings by their bytes.
use mathlib.Core.Path.{◌≡◌, refl}
use mathlib.Core.Bool.{Bool, true, false}
use mathlib.Core.List.{List, [], ◌∷◌}
use mathlib.Core.Logic.{inl, inr}
use native.Mathlib.Omega.{arith}
use openbao_attested_unseal.Prelude.Tests.{ltb, ◌==◌, if◌then◌else◌, Bool-cases}
use openbao_attested_unseal.Prelude.Lists.{is_nil}
use openbao_attested_unseal.Prelude.Text.{Text}

-- s <= t
unfoldable pub text_leb : Text → Text → Bool
text_leb [] t = true
text_leb (c ∷ s) [] = false
text_leb (c ∷ s) (d ∷ t) = if c == d then text_leb s t else ltb c d

pub text_leb_total : (s t : Text) → text_leb s t ≡ false → text_leb t s ≡ true
unfolding text_leb
text_leb_total [] t h = cc
text_leb_total (c ∷ s) [] h = refl
text_leb_total (c ∷ s) (d ∷ t) h = ground (arith, text_leb_total s t)

module _ {ℓ} {A : Type ℓ} (le : A → A → Bool) where
  unfoldable pub insert_sorted : A → List A → List A
  insert_sorted x [] = x ∷ []
  insert_sorted x (y ∷ ys) = if le x y then x ∷ y ∷ ys else y ∷ insert_sorted x ys

  unfoldable pub sort : List A → List A
  sort [] = []
  sort (x ∷ xs) = insert_sorted x (sort xs)

  is_nil-insert_sorted : (x : A) (xs : List A) → is_nil (insert_sorted x xs) ≡ false
  unfolding insert_sorted
  is_nil-insert_sorted x [] = refl
  is_nil-insert_sorted x (y ∷ ys) = ground arith

  pub is_nil-sort : (xs : List A) → is_nil (sort xs) ≡ is_nil xs
  unfolding sort
  is_nil-sort [] = refl
  is_nil-sort (x ∷ xs) = is_nil-insert_sorted x (sort xs)

  abbrev Heads : A → List A → Type 0
  Heads x [] = Unit {0}
  Heads x (y ∷ ys) = le x y ≡ true

  -- Each element stands before the next.
  abbrev pub IsSorted : List A → Type 0
  IsSorted [] = Unit {0}
  IsSorted (x ∷ xs) = Heads x xs × IsSorted xs

  module _ (total : (a b : A) → le a b ≡ false → le b a ≡ true) where
    insert_sorted-Heads :
        (y x : A) (xs : List A) → le y x ≡ true → Heads y xs → Heads y (insert_sorted x xs)
    unfolding insert_sorted
    insert_sorted-Heads y x [] below h = below
    insert_sorted-Heads y x (z ∷ zs) below h = elim (Bool-cases (le x z)) [
      | inl e ↦ rw e below
      | inr e ↦ rw e h
    ]

    insert_sorted-IsSorted : (x : A) (xs : List A) → IsSorted xs → IsSorted (insert_sorted x xs)
    unfolding insert_sorted
    insert_sorted-IsSorted x [] h = (tt, tt)
    insert_sorted-IsSorted x (y ∷ ys) h = elim (Bool-cases (le x y)) [
      | inl e ↦ rw e (e, h)
      | inr e ↦ rw e (insert_sorted-Heads y x ys (total x y e) h.0, insert_sorted-IsSorted x ys h.1)
    ]

    pub sort-IsSorted : (xs : List A) → IsSorted (sort xs)
    unfolding sort
    sort-IsSorted [] = tt
    sort-IsSorted (x ∷ xs) = insert_sorted-IsSorted x (sort xs) (sort-IsSorted xs)

  insert_sorted-head : (x : A) (xs : List A) → Heads x xs → insert_sorted x xs ≡ x ∷ xs
  unfolding insert_sorted
  insert_sorted-head x [] h = refl
  insert_sorted-head x (y ∷ ys) h = rw h

  pub sort-sorted : (xs : List A) → IsSorted xs → sort xs ≡ xs
  unfolding sort
  sort-sorted [] h = refl
  sort-sorted (x ∷ xs) h = rw (sort-sorted xs h.1) (insert_sorted-head x xs h.0)
