-- ===== src/Prelude/Trim.antt =====
-- strings.TrimSpace: the white space of Unicode, in UTF-8, is taken from both ends.
use Prim.Native.Nat.{ℕ}
use mathlib.Core.Path.{◌≡◌, refl, sym, ap, ◌∙◌}
use mathlib.Core.Logic.{inl, inr}
use mathlib.Core.Bool.{Bool, false, ◌&&◌, ◌||◌}
use mathlib.Core.List.{[], ◌∷◌, ◌++◌, reverse, reverse-append, reverse-reverse}
use native.Mathlib.Omega.{arith}
use openbao_attested_unseal.Prelude.Tests.{leb, ◌==◌, if◌then◌else◌, Bool-cases}
use openbao_attested_unseal.Prelude.Text.{Text}

-- '\t', '\n', '\v', '\f', '\r' and ' '
is_space1 : ℕ → Bool
is_space1 a = leb 9 a && leb a 13 || a == 32

-- U+0085 and U+00A0
is_space2 : ℕ → ℕ → Bool
is_space2 a b = a == 194 && (b == 133 || b == 160)

-- U+1680, U+2000 to U+200A, U+2028, U+2029, U+202F, U+205F and U+3000
is_space3 : ℕ → ℕ → ℕ → Bool
is_space3 a b c =
    a == 225 && (b == 154 && c == 128)
    || (a == 226
          && (b == 128 && (leb 128 c && leb c 138 || (c == 168 || (c == 169 || c == 175)))
              || b == 129 && c == 159)
        || a == 227 && (b == 128 && c == 128))

-- The tests of one, two and three bytes, in the direction in which a text is read.
record Spaces : Type 0 where
  one : ℕ → Bool
  two : ℕ → ℕ → Bool
  three : ℕ → ℕ → ℕ → Bool

forwards : Spaces
unfolding is_space1 is_space2 is_space3
forwards = record { one = is_space1; two = is_space2; three = is_space3 }

-- unicode/utf8.DecodeLastRune reads a character from its last byte.
backwards : Spaces
unfolding is_space1 is_space2 is_space3
backwards = record { one = is_space1; two = λ b a. is_space2 a b; three = λ c b a. is_space3 a b c }

strip : Spaces → Text → Text
strip s [] = []
strip s (a ∷ []) = if s.one a then [] else a ∷ []
strip s (a ∷ b ∷ []) =
    let after1 = strip s (b ∷ []) in
    if s.one a then after1 else if s.two a b then [] else a ∷ b ∷ []
strip s (a ∷ b ∷ c ∷ t) =
    let after1 = strip s (b ∷ c ∷ t) in
    let after2 = strip s (c ∷ t) in
    let after3 = strip s t in
    if s.one a
    then after1
    else if s.two a b
    then after2
    else if s.three a b c
    then after3
    else a ∷ b ∷ c ∷ t

-- strings.TrimSpace
unfoldable pub trim_space : Text → Text
unfolding strip forwards backwards
trim_space t = reverse (strip backwards (reverse (strip forwards t)))

-- Whether `strip` takes a character from the front.
leads : Spaces → Text → Bool
leads s [] = false
leads s (a ∷ []) = s.one a
leads s (a ∷ b ∷ []) = s.one a || s.two a b
leads s (a ∷ b ∷ c ∷ t) = s.one a || (s.two a b || s.three a b c)

strip_keeps : (s : Spaces) (t : Text) → leads s t ≡ false → strip s t ≡ t
unfolding strip leads
strip_keeps s [] h = refl
strip_keeps s (a ∷ []) h = ground arith
strip_keeps s (a ∷ b ∷ []) h = ground arith
strip_keeps s (a ∷ b ∷ c ∷ t) h = ground arith

leads-strip : (s : Spaces) (t : Text) → leads s (strip s t) ≡ false
unfolding strip leads
leads-strip s [] = refl
leads-strip s (a ∷ []) = ground arith
leads-strip s (a ∷ b ∷ []) = ground (arith, leads-strip s (b ∷ []))
leads-strip s (a ∷ b ∷ c ∷ t) =
    ground (arith, leads-strip s (b ∷ c ∷ t), leads-strip s (c ∷ t), leads-strip s t)

leads-append : (s : Spaces) (p q : Text) → leads s (p ++ q) ≡ false → leads s p ≡ false
unfolding leads
leads-append s [] q h = refl
leads-append s (a ∷ []) [] h = h
leads-append s (a ∷ []) (b ∷ []) h = ground arith
leads-append s (a ∷ []) (b ∷ c ∷ t) h = ground arith
leads-append s (a ∷ b ∷ []) [] h = h
leads-append s (a ∷ b ∷ []) (c ∷ t) h = ground arith
leads-append s (a ∷ b ∷ c ∷ t) q h = h

abbrev IsSuffix : Text → Text → Type 0
IsSuffix r t = (u : Text) × (t ≡ u ++ r)

longer : (a : ℕ) (r t : Text) → IsSuffix r t → IsSuffix r (a ∷ t)
longer a r t (u, e) = (a ∷ u, ap (λ (x : Text). a ∷ x) e)

strip-IsSuffix : (s : Spaces) (t : Text) → IsSuffix (strip s t) t
unfolding strip
strip-IsSuffix s [] = ([], refl)
strip-IsSuffix s (a ∷ []) = elim (Bool-cases (s.one a)) [
  | inl e ↦ rw e (a ∷ [], refl)
  | inr e ↦ rw e ([], refl)
]
strip-IsSuffix s (a ∷ b ∷ []) = elim (Bool-cases (s.one a)) [
  | inl e ↦ rw e (longer a _ _ (strip-IsSuffix s (b ∷ [])))
  | inr e ↦ elim (Bool-cases (s.two a b)) [
    | inl f ↦ rw (e, f) (a ∷ b ∷ [], refl)
    | inr f ↦ rw (e, f) ([], refl)
  ]
]
strip-IsSuffix s (a ∷ b ∷ c ∷ t) = elim (Bool-cases (s.one a)) [
  | inl e ↦ rw e (longer a _ _ (strip-IsSuffix s (b ∷ c ∷ t)))
  | inr e ↦ elim (Bool-cases (s.two a b)) [
    | inl f ↦ rw (e, f) (longer a _ _ (longer b _ _ (strip-IsSuffix s (c ∷ t))))
    | inr f ↦ elim (Bool-cases (s.three a b c)) [
      | inl g ↦ rw (e, f, g) (longer a _ _ (longer b _ _ (longer c _ _ (strip-IsSuffix s t))))
      | inr g ↦ rw (e, f, g) ([], refl)
    ]
  ]
]

-- What is left of a text that does not lead with white space does not either.
leads-reverse :
    (l r : Text)
    → IsSuffix r (reverse l)
    → leads forwards l ≡ false
    → leads forwards (reverse r) ≡ false
leads-reverse l r (u, e) h =
    let split : l ≡ reverse r ++ reverse u =
      sym (reverse-reverse l) ∙ ap reverse e ∙ reverse-append u r in
    leads-append forwards (reverse r) (reverse u) (ap (leads forwards) (sym split) ∙ h)

pub trim_space_idem : (t : Text) → trim_space (trim_space t) ≡ trim_space t
unfolding trim_space
trim_space_idem t =
    let l = strip forwards t in
    let r = strip backwards (reverse l) in
    let front : strip forwards (reverse r) ≡ reverse r =
      strip_keeps forwards (reverse r)
        (leads-reverse l r (strip-IsSuffix backwards (reverse l)) (leads-strip forwards t)) in
    let back : strip backwards r ≡ r =
      strip_keeps backwards r (leads-strip backwards (reverse l)) in
    rw (front, reverse-reverse r, back)
