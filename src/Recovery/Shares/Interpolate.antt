-- ===== src/Recovery/Shares/Interpolate.antt =====
-- Lagrange interpolation at zero over the field of bytes, independent of the code's loops.
use mathlib.Core.Path.{fun_ext}
use openbao_attested_unseal.Prelude.{
  Bool-cases, inl, inr, ◌≤◌, ◌≡◌, refl, ap, sym, ◌∙◌, false, List, [], ◌∷◌, arith, length, All,
  if◌then◌else◌,
}
use openbao_attested_unseal.Recovery.Field.{
  Byte, zero_byte, one_byte, ◌⊕◌, is_zero, gf_mul, gf_pow, same_byte,
}
use openbao_attested_unseal.Recovery.Field.Xor.{
  ⊕_comm, ⊕_assoc, ⊕-zero, zero-⊕, ⊕_self, ⊕_cancel, ⊕_interchange,
}
use openbao_attested_unseal.Recovery.Field.Product.{
  gf_mul_comm, gf_mul_assoc, gf_mul-⊕, gf_mul-⊕_right, gf_mul-zero, gf_mul-one,
}
use openbao_attested_unseal.Recovery.Field.Inverse.{over, over-gf_mul, gf_mul-gf_pow}
use openbao_attested_unseal.Recovery.Field.Every.{same_byte_refl, same_byte_symm, is_zero-⊕}
use openbao_attested_unseal.Recovery.Shares.{eval_polynomial}
use openbao_attested_unseal.Recovery.Shares.Polynomial.{
  quotient, length-quotient, eval_polynomial-quotient,
}

-- The product of y / (x + y) over the nodes y other than x.
unfoldable pub weight : Byte → List Byte → Byte
weight x [] = one_byte
weight x (y ∷ ys) =
    let rest = weight x ys in if same_byte x y then rest else gf_mul (over y (x ⊕ y)) rest

-- The sum over the nodes x of f x times the weight of x among `all`.
unfoldable pub lagrange : List Byte → List Byte → (Byte → Byte) → Byte
lagrange [] all f = zero_byte
lagrange (x ∷ xs) all f = gf_mul (f x) (weight x all) ⊕ lagrange xs all f

-- x differs from every node.
abbrev pub Misses : Byte → List Byte → Type 0
Misses x ys = All (λ y. same_byte x y ≡ false) ys

abbrev pub IsDistinct : List Byte → Type 0
IsDistinct [] = Unit
IsDistinct (x ∷ xs) = Misses x xs × IsDistinct xs

lagrange-⊕ :
    (xs all : List Byte) (f g : Byte → Byte)
    → lagrange xs all (λ t. f t ⊕ g t) ≡ lagrange xs all f ⊕ lagrange xs all g
unfolding lagrange
lagrange-⊕ [] all f g = sym (⊕-zero zero_byte)
lagrange-⊕ (x ∷ xs) all f g =
    ap (λ u. u ⊕ lagrange xs all (λ t. f t ⊕ g t)) (gf_mul-⊕ (f x) (g x) (weight x all))
    ∙ ap (λ u. gf_mul (f x) (weight x all) ⊕ gf_mul (g x) (weight x all) ⊕ u)
        (lagrange-⊕ xs all f g)
    ∙ ⊕_interchange (gf_mul (f x) (weight x all)) (gf_mul (g x) (weight x all)) (lagrange xs all f)
        (lagrange xs all g)

lagrange-gf_mul :
    (xs all : List Byte) (c : Byte) (f : Byte → Byte)
    → lagrange xs all (λ t. gf_mul c (f t)) ≡ gf_mul c (lagrange xs all f)
unfolding lagrange
lagrange-gf_mul [] all c f = sym (gf_mul_comm c zero_byte ∙ gf_mul-zero c)
lagrange-gf_mul (x ∷ xs) all c f =
    ap (λ u. u ⊕ lagrange xs all (λ t. gf_mul c (f t))) (gf_mul_assoc c (f x) (weight x all))
    ∙ ap (λ u. gf_mul c (gf_mul (f x) (weight x all)) ⊕ u) (lagrange-gf_mul xs all c f)
    ∙ sym (gf_mul-⊕_right c (gf_mul (f x) (weight x all)) (lagrange xs all f))

-- a (b c) = b (a c)
mul_left_comm : (a b c : Byte) → gf_mul a (gf_mul b c) ≡ gf_mul b (gf_mul a c)
mul_left_comm a b c =
    sym (gf_mul_assoc a b c) ∙ ap (λ u. gf_mul u c) (gf_mul_comm a b) ∙ gf_mul_assoc b a c

⊕_left_comm : (a b c : Byte) → a ⊕ (b ⊕ c) ≡ b ⊕ (a ⊕ c)
⊕_left_comm a b c = sym (⊕_assoc a b c) ∙ ap (λ u. u ⊕ c) (⊕_comm a b) ∙ ⊕_assoc b a c

weight-swap : (t x y : Byte) (zs : List Byte) → weight t (x ∷ y ∷ zs) ≡ weight t (y ∷ x ∷ zs)
unfolding weight
weight-swap t x y zs = elim (Bool-cases (same_byte t x)) [
  | inl hx ↦ elim (Bool-cases (same_byte t y)) [
    | inl hy ↦ rw (hx, hy) refl
    | inr hy ↦ rw (hx, hy) refl
  ]
  | inr hx ↦ elim (Bool-cases (same_byte t y)) [
    | inl hy ↦ rw (hx, hy) refl
    | inr hy ↦ rw (hx, hy) (mul_left_comm (over x (t ⊕ x)) (over y (t ⊕ y)) (weight t zs))
  ]
]

lagrange-weight :
    (xs all other : List Byte) (f : Byte → Byte)
    → ((t : Byte) → weight t all ≡ weight t other)
    → lagrange xs all f ≡ lagrange xs other f
unfolding lagrange
lagrange-weight [] all other f h = refl
lagrange-weight (x ∷ xs) all other f h = rw (h x, lagrange-weight xs all other f h) refl

lagrange-swap :
    (x y : Byte) (zs : List Byte) (f : Byte → Byte)
    → lagrange (x ∷ y ∷ zs) (x ∷ y ∷ zs) f ≡ lagrange (y ∷ x ∷ zs) (y ∷ x ∷ zs) f
lagrange-swap x y zs f =
    lagrange-weight (x ∷ y ∷ zs) (x ∷ y ∷ zs) (y ∷ x ∷ zs) f (λ t. weight-swap t x y zs)
    ∙ unfold lagrange in
      ⊕_left_comm (gf_mul (f x) (weight x (y ∷ x ∷ zs))) (gf_mul (f y) (weight y (y ∷ x ∷ zs)))
        (lagrange zs (y ∷ x ∷ zs) f)

-- (t + x) r (x / (t + x)) w = x (r w)
node_factor :
    (t x r w : Byte)
    → is_zero (t ⊕ x) ≡ false
    → gf_mul (gf_mul (t ⊕ x) r) (gf_mul (over x (t ⊕ x)) w) ≡ gf_mul x (gf_mul r w)
node_factor t x r w h =
    let q = over x (t ⊕ x) in
    gf_mul_assoc (t ⊕ x) r (gf_mul q w)
    ∙ ap (gf_mul (t ⊕ x)) (mul_left_comm r q w)
    ∙ sym (gf_mul_assoc (t ⊕ x) q (gf_mul r w))
    ∙ ap (λ z. gf_mul z (gf_mul r w)) (gf_mul_comm (t ⊕ x) q ∙ over-gf_mul x (t ⊕ x) h)

-- A node that the function has as a root leaves, and its value remains as a factor.
lagrange-root :
    (xs all : List Byte) (x : Byte) (r : Byte → Byte)
    → Misses x xs
    → lagrange xs (x ∷ all) (λ t. gf_mul (t ⊕ x) (r t)) ≡ gf_mul x (lagrange xs all r)
unfolding lagrange weight
lagrange-root [] all x r h = sym (gf_mul_comm x zero_byte ∙ gf_mul-zero x)
lagrange-root (y ∷ xs) all x r (hy, h) =
    let differs : same_byte y x ≡ false = same_byte_symm y x ∙ hy in
    rw differs (
      ap (λ u. u ⊕ lagrange xs (x ∷ all) (λ t. gf_mul (t ⊕ x) (r t)))
        (node_factor y x (r y) (weight y all) (is_zero-⊕ y x differs))
      ∙ ap (λ u. gf_mul x (gf_mul (r y) (weight y all)) ⊕ u) (lagrange-root xs all x r h)
      ∙ sym (gf_mul-⊕_right x (gf_mul (r y) (weight y all)) (lagrange xs all r)))

-- The same with the root among the nodes.
lagrange-root_cons :
    (x : Byte) (xs : List Byte) (r : Byte → Byte)
    → Misses x xs
    → lagrange (x ∷ xs) (x ∷ xs) (λ t. gf_mul (t ⊕ x) (r t)) ≡ gf_mul x (lagrange xs xs r)
unfolding lagrange
lagrange-root_cons x xs r h =
    rw (⊕_self x, gf_mul-zero (r x), gf_mul-zero (weight x (x ∷ xs)))
      (zero-⊕ (lagrange xs (x ∷ xs) (λ t. gf_mul (t ⊕ x) (r t))) ∙ lagrange-root xs xs x r h)

abbrev constant_one : Byte → Byte
constant_one t = one_byte

-- (t + x) as a multiple of the constant
lagrange-linear :
    (x : Byte) (xs : List Byte)
    → Misses x xs
    → lagrange (x ∷ xs) (x ∷ xs) (λ t. t ⊕ x) ≡ gf_mul x (lagrange xs xs constant_one)
lagrange-linear x xs h =
    ap (lagrange (x ∷ xs) (x ∷ xs)) (fun_ext (λ t. sym (gf_mul-one (t ⊕ x))))
    ∙ lagrange-root_cons x xs constant_one h

cancel_factor : (a b c : Byte) → is_zero a ≡ false → gf_mul a b ≡ gf_mul a c → b ≡ c
cancel_factor a b c h e =
    let back = λ (u : Byte).
      ap (λ z. gf_mul z u) (gf_mul_comm (gf_pow a 254) a ∙ gf_mul-gf_pow a h)
      ∙ gf_mul_comm one_byte u
      ∙ gf_mul-one u in
    sym (back b)
    ∙ gf_mul_assoc (gf_pow a 254) a b
    ∙ ap (gf_mul (gf_pow a 254)) e
    ∙ sym (gf_mul_assoc (gf_pow a 254) a c)
    ∙ back c

-- (t + x) + (t + y) = (x + y) 1
two_nodes : (t x y : Byte) → t ⊕ x ⊕ (t ⊕ y) ≡ gf_mul (x ⊕ y) one_byte
two_nodes t x y =
    ⊕_interchange t x t y
    ∙ ap (λ u. u ⊕ (x ⊕ y)) (⊕_self t)
    ∙ zero-⊕ (x ⊕ y)
    ∙ sym (gf_mul-one (x ⊕ y))

-- The weights of distinct nodes add up to one.
lagrange-one :
    (x : Byte) (xs : List Byte)
    → IsDistinct (x ∷ xs)
    → lagrange (x ∷ xs) (x ∷ xs) constant_one ≡ one_byte
lagrange-one x [] h =
    unfold lagrange weight in
    rw (same_byte_refl x) (⊕-zero (gf_mul one_byte one_byte) ∙ gf_mul-one one_byte)
lagrange-one x (y ∷ zs) ((xy, xz), (yz, z)) =
    let all = x ∷ y ∷ zs in
    cancel_factor (x ⊕ y) _ _ (is_zero-⊕ x y xy) (
      sym (lagrange-gf_mul all all (x ⊕ y) constant_one)
      ∙ ap (lagrange all all) (fun_ext (λ t. sym (two_nodes t x y)))
      ∙ lagrange-⊕ all all (λ t. t ⊕ x) (λ t. t ⊕ y)
      ∙ ap (λ u. u ⊕ lagrange all all (λ t. t ⊕ y))
          (lagrange-linear x (y ∷ zs) (xy, xz)
            ∙ ap (gf_mul x) (lagrange-one y zs (yz, z))
            ∙ gf_mul-one x)
      ∙ ap (λ u. x ⊕ u)
          (lagrange-swap x y zs (λ t. t ⊕ y)
            ∙ lagrange-linear y (x ∷ zs) (same_byte_symm y x ∙ xy, yz)
            ∙ ap (gf_mul y) (lagrange-one x zs (xz, z))
            ∙ gf_mul-one y)
      ∙ sym (gf_mul-one (x ⊕ y)))

eval_at_zero :
    (p : List Byte) (x : Byte)
    → eval_polynomial p zero_byte
      ≡ eval_polynomial p x ⊕ gf_mul x (eval_polynomial (quotient x p) zero_byte)
eval_at_zero p x =
    sym (⊕_cancel (eval_polynomial p x) (eval_polynomial p zero_byte))
    ∙ ap (λ u. eval_polynomial p x ⊕ u)
        (⊕_comm (eval_polynomial p x) (eval_polynomial p zero_byte)
          ∙ eval_polynomial-quotient p zero_byte x
          ∙ ap (λ u. gf_mul u (eval_polynomial (quotient x p) zero_byte)) (zero-⊕ x))

eval_split :
    (p : List Byte) (x t : Byte)
    → eval_polynomial p t
      ≡ gf_mul (eval_polynomial p x) one_byte ⊕ gf_mul (t ⊕ x) (eval_polynomial (quotient x p) t)
eval_split p x t =
    sym (⊕_cancel (eval_polynomial p x) (eval_polynomial p t))
    ∙ ap (λ u. eval_polynomial p x ⊕ u)
        (⊕_comm (eval_polynomial p x) (eval_polynomial p t) ∙ eval_polynomial-quotient p t x)
    ∙ ap (λ u. u ⊕ gf_mul (t ⊕ x) (eval_polynomial (quotient x p) t))
        (sym (gf_mul-one (eval_polynomial p x)))

-- A polynomial with at most as many coefficients as there are distinct nodes is recovered at zero
-- from its values at the nodes.
pub lagrange-eval_polynomial :
    (xs p : List Byte)
    → IsDistinct xs
    → length p ≤ length xs
    → lagrange xs xs (eval_polynomial p) ≡ eval_polynomial p zero_byte
lagrange-eval_polynomial [] [] h le = unfold lagrange eval_polynomial in refl
lagrange-eval_polynomial [] (c ∷ p) h le = absurd (omega arith)
lagrange-eval_polynomial (x ∷ xs) p (hx, h) le =
    let all = x ∷ xs in
    ap (lagrange all all) (fun_ext (λ t. eval_split p x t))
    ∙ lagrange-⊕ all all (λ t. gf_mul (eval_polynomial p x) one_byte)
        (λ t. gf_mul (t ⊕ x) (eval_polynomial (quotient x p) t))
    ∙ ap (λ u. u ⊕ lagrange all all (λ t. gf_mul (t ⊕ x) (eval_polynomial (quotient x p) t)))
        (lagrange-gf_mul all all (eval_polynomial p x) constant_one
          ∙ ap (gf_mul (eval_polynomial p x)) (lagrange-one x xs (hx, h))
          ∙ gf_mul-one (eval_polynomial p x))
    ∙ ap (λ u. eval_polynomial p x ⊕ u)
        (lagrange-root_cons x xs (eval_polynomial (quotient x p)) hx
          ∙ ap (gf_mul x)
              (lagrange-eval_polynomial xs (quotient x p) h (omega (arith, length-quotient x p))))
    ∙ sym (eval_at_zero p x)
