-- ===== src/Recovery/Shares/Polynomial.antt =====
-- evalPolynomial: the division of a polynomial by x - a.
use openbao_attested_unseal.Prelude.{◌-◌, ◌≡◌, refl, ap, sym, ◌∙◌, List, [], ◌∷◌, arith, length}
use openbao_attested_unseal.Recovery.Field.{Byte, zero_byte, ◌⊕◌, gf_mul}
use openbao_attested_unseal.Recovery.Field.Xor.{
  ⊕_comm, ⊕_assoc, ⊕-zero, ⊕_self, ⊕_cancel, ⊕_interchange,
}
use openbao_attested_unseal.Recovery.Field.Product.{
  gf_mul_comm, gf_mul_assoc, gf_mul-⊕, gf_mul-⊕_right, gf_mul-zero,
}
use openbao_attested_unseal.Recovery.Shares.{eval_polynomial}

-- The quotient of a polynomial by the root x.
pub quotient : Byte → List Byte → List Byte
quotient x [] = []
quotient x (c ∷ []) = []
quotient x (c ∷ d ∷ ds) = eval_polynomial (d ∷ ds) x ∷ quotient x (d ∷ ds)

pub length-quotient : (x : Byte) (p : List Byte) → length (quotient x p) ≡ length p - 1
unfolding quotient
length-quotient x [] = refl
length-quotient x (c ∷ []) = refl
length-quotient x (c ∷ d ∷ ds) = omega (arith, length-quotient x (d ∷ ds))

gf_mul-zero_right : (a : Byte) → gf_mul a zero_byte ≡ zero_byte
gf_mul-zero_right a = gf_mul_comm a zero_byte ∙ gf_mul-zero a

-- (a + c) + (b + c) = a + b
drop_common : (a b c : Byte) → a ⊕ c ⊕ (b ⊕ c) ≡ a ⊕ b
drop_common a b c = ⊕_interchange a c b c ∙ ap (λ t. a ⊕ b ⊕ t) (⊕_self c) ∙ ⊕-zero (a ⊕ b)

-- q t + q' x where q t = q' + (t + x) r
factor :
    (t x q r : Byte)
    → gf_mul (q ⊕ gf_mul (t ⊕ x) r) t ⊕ gf_mul q x ≡ gf_mul (t ⊕ x) (gf_mul r t ⊕ q)
factor t x q r =
    ap (λ u. u ⊕ gf_mul q x) (gf_mul-⊕ q (gf_mul (t ⊕ x) r) t)
    ∙ ⊕_assoc (gf_mul q t) (gf_mul (gf_mul (t ⊕ x) r) t) (gf_mul q x)
    ∙ ap (λ u. gf_mul q t ⊕ u) (⊕_comm (gf_mul (gf_mul (t ⊕ x) r) t) (gf_mul q x))
    ∙ sym (⊕_assoc (gf_mul q t) (gf_mul q x) (gf_mul (gf_mul (t ⊕ x) r) t))
    ∙ ap (λ u. u ⊕ gf_mul (gf_mul (t ⊕ x) r) t) (sym (gf_mul-⊕_right q t x) ∙ gf_mul_comm q (t ⊕ x))
    ∙ ap (λ u. gf_mul (t ⊕ x) q ⊕ u) (gf_mul_assoc (t ⊕ x) r t)
    ∙ sym (gf_mul-⊕_right (t ⊕ x) q (gf_mul r t))
    ∙ ap (gf_mul (t ⊕ x)) (⊕_comm q (gf_mul r t))

from_sum : (a b c : Byte) → a ⊕ b ≡ c → a ≡ b ⊕ c
from_sum a b c h = sym (⊕_cancel b a) ∙ ap (λ u. b ⊕ u) (⊕_comm b a ∙ h)

-- A polynomial differs from its value at x by a multiple of t + x.
pub eval_polynomial-quotient :
    (p : List Byte) (t x : Byte)
    → eval_polynomial p t ⊕ eval_polynomial p x ≡ gf_mul (t ⊕ x) (eval_polynomial (quotient x p) t)
unfolding quotient eval_polynomial
eval_polynomial-quotient [] t x = ⊕_self zero_byte ∙ sym (gf_mul-zero_right (t ⊕ x))
eval_polynomial-quotient (c ∷ []) t x =
    drop_common (gf_mul zero_byte t) (gf_mul zero_byte x) c
    ∙ rw (gf_mul-zero t, gf_mul-zero x) (⊕_self zero_byte)
    ∙ sym (gf_mul-zero_right (t ⊕ x))
eval_polynomial-quotient (c ∷ d ∷ ds) t x =
    drop_common (gf_mul (eval_polynomial (d ∷ ds) t) t) (gf_mul (eval_polynomial (d ∷ ds) x) x) c
    ∙ ap (λ u. gf_mul u t ⊕ gf_mul (eval_polynomial (d ∷ ds) x) x)
        (from_sum (eval_polynomial (d ∷ ds) t) (eval_polynomial (d ∷ ds) x) _
          (eval_polynomial-quotient (d ∷ ds) t x))
    ∙ factor t x (eval_polynomial (d ∷ ds) x) (eval_polynomial (quotient x (d ∷ ds)) t)
