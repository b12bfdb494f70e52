-- ===== src/Recovery/Field/Product.antt =====
-- gfMul is the product of a commutative ring: its loop adds the doublings of the first factor that
-- the bits of the second select.
use openbao_attested_unseal.Prelude.{
  ℕ, zero, suc, ◌≡◌, refl, ap, sym, ◌∙◌, Bool, true, false, List, [], ◌∷◌, arith, if◌then◌else◌,
  Bool-cases, inl, inr,
}
use openbao_attested_unseal.Recovery.Field.{
  same_byte, Byte, bits, zero_byte, xor_bit, ◌⊕◌, is_zero, low_bit, shift_right, double, mul_loop,
  one_byte, gf_mul,
}
use openbao_attested_unseal.Recovery.Field.Every.{every_byte, every_byte_sound, same_byte_sound}
use openbao_attested_unseal.Recovery.Field.Xor.{zero-⊕, ⊕_assoc, ⊕-zero, ⊕_interchange}

-- The bits of a byte, the lowest first.
abbrev low_first : Byte → List Bool
low_first (bits b7 b6 b5 b4 b3 b2 b1 b0) = b0 ∷ b1 ∷ b2 ∷ b3 ∷ b4 ∷ b5 ∷ b6 ∷ b7 ∷ []

abbrev select : Bool → Byte → Byte
select b a = if b then a else zero_byte

-- The sum of the doublings of `a` that the bits select.
dot : List Bool → Byte → Byte
dot [] a = zero_byte
dot (b ∷ bs) a = select b a ⊕ dot bs (double a)

double_parts :
    (a7 a6 a5 a4 a3 a2 a1 a0 : Bool)
    → double (bits a7 a6 a5 a4 a3 a2 a1 a0)
      ≡ bits a6 a5 a4 (xor_bit a7 a3) (xor_bit a7 a2) a1 (xor_bit a7 a0) a7
unfolding double ◌⊕◌
double_parts true a6 a5 a4 a3 a2 a1 a0 = ground arith
double_parts false a6 a5 a4 a3 a2 a1 a0 = refl

swap_bits :
    (a b c d : Bool) → xor_bit (xor_bit a b) (xor_bit c d) ≡ xor_bit (xor_bit a c) (xor_bit b d)
swap_bits a b c d = ground arith

double-⊕ : (a b : Byte) → double (a ⊕ b) ≡ double a ⊕ double b
unfolding ◌⊕◌
double-⊕ (bits a7 a6 a5 a4 a3 a2 a1 a0) (bits b7 b6 b5 b4 b3 b2 b1 b0) =
    double_parts (xor_bit a7 b7) (xor_bit a6 b6) (xor_bit a5 b5) (xor_bit a4 b4) (xor_bit a3 b3)
      (xor_bit a2 b2) (xor_bit a1 b1) (xor_bit a0 b0)
    ∙ (λ i.
        bits (xor_bit a6 b6) (xor_bit a5 b5) (xor_bit a4 b4) (swap_bits a7 b7 a3 b3 i)
          (swap_bits a7 b7 a2 b2 i) (xor_bit a1 b1) (swap_bits a7 b7 a0 b0 i) (xor_bit a7 b7))
    ∙ sym (rw (double_parts a7 a6 a5 a4 a3 a2 a1 a0, double_parts b7 b6 b5 b4 b3 b2 b1 b0) refl)

double-zero : double zero_byte ≡ zero_byte
unfolding double
double-zero = refl

double-select : (b : Bool) (a : Byte) → double (select b a) ≡ select b (double a)
double-select true a = refl
double-select false a = double-zero

double-dot : (bs : List Bool) (a : Byte) → double (dot bs a) ≡ dot bs (double a)
unfolding dot
double-dot [] a = double-zero
double-dot (b ∷ bs) a =
    double-⊕ (select b a) (dot bs (double a))
    ∙ rw (double-select b a, double-dot bs (double a)) refl

select-⊕ : (x : Bool) (a b : Byte) → select x (a ⊕ b) ≡ select x a ⊕ select x b
select-⊕ true a b = refl
select-⊕ false a b = sym (⊕-zero zero_byte)

dot-⊕ : (bs : List Bool) (a b : Byte) → dot bs (a ⊕ b) ≡ dot bs a ⊕ dot bs b
unfolding dot
dot-⊕ [] a b = sym (⊕-zero zero_byte)
dot-⊕ (x ∷ bs) a b =
    rw (select-⊕ x a b, double-⊕ a b, dot-⊕ bs (double a) (double b))
      (⊕_interchange (select x a) (select x b) (dot bs (double a)) (dot bs (double b)))

dot-zero : (bs : List Bool) → dot bs zero_byte ≡ zero_byte
unfolding dot
dot-zero [] = refl
dot-zero (true ∷ bs) = rw (double-zero, dot-zero bs) (⊕-zero zero_byte)
dot-zero (false ∷ bs) = rw (double-zero, dot-zero bs) (⊕-zero zero_byte)

dot-select : (bs : List Bool) (x : Bool) (a : Byte) → dot bs (select x a) ≡ select x (dot bs a)
dot-select bs true a = refl
dot-select bs false a = dot-zero bs

-- Sums of doublings commute.
dot-dot : (bs cs : List Bool) (a : Byte) → dot bs (dot cs a) ≡ dot cs (dot bs a)
unfolding dot
dot-dot [] cs a = sym (dot-zero cs)
dot-dot (b ∷ bs) cs a =
    ap (λ t. select b (dot cs a) ⊕ t) (ap (dot bs) (double-dot cs a) ∙ dot-dot bs cs (double a))
    ∙ ap (λ t. t ⊕ dot cs (dot bs (double a))) (sym (dot-select cs b a))
    ∙ sym (dot-⊕ cs (select b a) (dot bs (double a)))

-- The sum that the loop accumulates, in its order.
dot_from : List Bool → Byte → Byte → Byte
dot_from [] a product = product
dot_from (b ∷ bs) a product = dot_from bs (double a) (if b then product ⊕ a else product)

add_selected : (b : Bool) (p a : Byte) → (if b then p ⊕ a else p) ≡ p ⊕ select b a
add_selected true p a = refl
add_selected false p a = sym (⊕-zero p)

dot_from-eq-dot : (bs : List Bool) (a p : Byte) → dot_from bs a p ≡ p ⊕ dot bs a
unfolding dot_from dot
dot_from-eq-dot [] a p = sym (⊕-zero p)
dot_from-eq-dot (b ∷ bs) a p =
    rw (add_selected b p a)
      (dot_from-eq-dot bs (double a) (p ⊕ select b a) ∙ ⊕_assoc p (select b a) (dot bs (double a)))

mul_loop-zero : (rounds : ℕ) (a p : Byte) → mul_loop rounds a zero_byte p ≡ p
unfolding mul_loop
mul_loop-zero zero a p = refl
mul_loop-zero (suc rounds) a p = refl

is_zero-eq : (b : Byte) → is_zero b ≡ true → b ≡ zero_byte
is_zero-eq b h = ground arith

-- A round of the loop may be made also where the loop stops.
mul_loop-suc :
    (rounds : ℕ) (a b p : Byte)
    → mul_loop (suc rounds) a b p
      ≡ mul_loop rounds (double a) (shift_right b) (if low_bit b then p ⊕ a else p)
unfolding mul_loop
mul_loop-suc rounds a b p = elim (Bool-cases (is_zero b)) [
  | inl stop ↦ rw (is_zero-eq b stop) (sym (mul_loop-zero rounds (double a) p))
  | inr on ↦ rw on refl
]

-- Eight rounds read all bits, and any more rounds change nothing.
mul_loop-eq-dot :
    (more : ℕ) (a b p : Byte)
    → mul_loop (suc (suc (suc (suc (suc (suc (suc (suc more)))))))) a b p ≡ p ⊕ dot (low_first b) a
mul_loop-eq-dot more a (bits b7 b6 b5 b4 b3 b2 b1 b0) p =
    mul_loop-suc _ a (bits b7 b6 b5 b4 b3 b2 b1 b0) p
    ∙ mul_loop-suc _ _ (bits false b7 b6 b5 b4 b3 b2 b1) _
    ∙ mul_loop-suc _ _ (bits false false b7 b6 b5 b4 b3 b2) _
    ∙ mul_loop-suc _ _ (bits false false false b7 b6 b5 b4 b3) _
    ∙ mul_loop-suc _ _ (bits false false false false b7 b6 b5 b4) _
    ∙ mul_loop-suc _ _ (bits false false false false false b7 b6 b5) _
    ∙ mul_loop-suc _ _ (bits false false false false false false b7 b6) _
    ∙ mul_loop-suc more _ (bits false false false false false false false b7) _
    ∙ mul_loop-zero more _ _
    ∙ (unfold dot_from in dot_from-eq-dot (low_first (bits b7 b6 b5 b4 b3 b2 b1 b0)) a p)

gf_mul-eq-dot : (a b : Byte) → gf_mul a b ≡ dot (low_first b) a
unfolding gf_mul
gf_mul-eq-dot a b = mul_loop-eq-dot 0 a b zero_byte ∙ zero-⊕ (dot (low_first b) a)

dot-one : (b : Byte) → dot (low_first b) one_byte ≡ b
dot-one b = same_byte_sound _ _ (
    every_byte_sound (λ a. same_byte (dot (low_first a) one_byte) a) b
      (unfold every_byte dot double ◌⊕◌ in refl))

-- The product of gfMul is commutative.
pub gf_mul_comm : (a b : Byte) → gf_mul a b ≡ gf_mul b a
gf_mul_comm a b =
    gf_mul-eq-dot a b
    ∙ ap (dot (low_first b)) (sym (dot-one a))
    ∙ dot-dot (low_first b) (low_first a) one_byte
    ∙ ap (dot (low_first a)) (dot-one b)
    ∙ sym (gf_mul-eq-dot b a)

-- The product of gfMul is associative.
pub gf_mul_assoc : (a b c : Byte) → gf_mul (gf_mul a b) c ≡ gf_mul a (gf_mul b c)
gf_mul_assoc a b c =
    gf_mul-eq-dot (gf_mul a b) c
    ∙ ap (dot (low_first c)) (gf_mul_comm a b ∙ gf_mul-eq-dot b a)
    ∙ dot-dot (low_first c) (low_first a) b
    ∙ ap (dot (low_first a)) (sym (gf_mul-eq-dot b c))
    ∙ sym (gf_mul-eq-dot (gf_mul b c) a)
    ∙ gf_mul_comm (gf_mul b c) a

pub gf_mul-⊕ : (a b c : Byte) → gf_mul (a ⊕ b) c ≡ gf_mul a c ⊕ gf_mul b c
gf_mul-⊕ a b c =
    gf_mul-eq-dot (a ⊕ b) c
    ∙ dot-⊕ (low_first c) a b
    ∙ ap (λ t. t ⊕ dot (low_first c) b) (sym (gf_mul-eq-dot a c))
    ∙ ap (λ t. gf_mul a c ⊕ t) (sym (gf_mul-eq-dot b c))

pub gf_mul-⊕_right : (a b c : Byte) → gf_mul a (b ⊕ c) ≡ gf_mul a b ⊕ gf_mul a c
gf_mul-⊕_right a b c =
    gf_mul_comm a (b ⊕ c)
    ∙ gf_mul-⊕ b c a
    ∙ ap (λ t. t ⊕ gf_mul c a) (gf_mul_comm b a)
    ∙ ap (λ t. gf_mul a b ⊕ t) (gf_mul_comm c a)

pub gf_mul-one : (a : Byte) → gf_mul a one_byte ≡ a
gf_mul-one a = gf_mul_comm a one_byte ∙ gf_mul-eq-dot one_byte a ∙ dot-one a

pub gf_mul-zero : (a : Byte) → gf_mul zero_byte a ≡ zero_byte
gf_mul-zero a = gf_mul-eq-dot zero_byte a ∙ dot-zero (low_first a)
