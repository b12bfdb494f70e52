-- ===== src/Recovery/Field/Xor.antt =====
-- Bytes under exclusive or: a commutative group in which every byte is its own inverse.
use openbao_attested_unseal.Prelude.{◌≡◌, Bool, false, arith, ◌∙◌, sym, ap}
use openbao_attested_unseal.Recovery.Field.{Byte, bits, zero_byte, xor_bit, ◌⊕◌}

xor_bit_comm : (a b : Bool) → xor_bit a b ≡ xor_bit b a
xor_bit_comm a b = ground arith

xor_bit_assoc : (a b c : Bool) → xor_bit (xor_bit a b) c ≡ xor_bit a (xor_bit b c)
xor_bit_assoc a b c = ground arith

xor_bit-false : (a : Bool) → xor_bit a false ≡ a
xor_bit-false a = ground arith

xor_bit_self : (a : Bool) → xor_bit a a ≡ false
xor_bit_self a = ground arith

pub ⊕_comm : (a b : Byte) → a ⊕ b ≡ b ⊕ a
unfolding ◌⊕◌
⊕_comm (bits a7 a6 a5 a4 a3 a2 a1 a0) (bits b7 b6 b5 b4 b3 b2 b1 b0) = λ i.
    bits (xor_bit_comm a7 b7 i) (xor_bit_comm a6 b6 i) (xor_bit_comm a5 b5 i) (xor_bit_comm a4 b4 i)
      (xor_bit_comm a3 b3 i) (xor_bit_comm a2 b2 i) (xor_bit_comm a1 b1 i) (xor_bit_comm a0 b0 i)

pub ⊕_assoc : (a b c : Byte) → a ⊕ b ⊕ c ≡ a ⊕ (b ⊕ c)
unfolding ◌⊕◌
⊕_assoc (bits a7 a6 a5 a4 a3 a2 a1 a0) (bits b7 b6 b5 b4 b3 b2 b1 b0)
      (bits c7 c6 c5 c4 c3 c2 c1 c0) =
    λ i.
      bits (xor_bit_assoc a7 b7 c7 i) (xor_bit_assoc a6 b6 c6 i) (xor_bit_assoc a5 b5 c5 i)
        (xor_bit_assoc a4 b4 c4 i) (xor_bit_assoc a3 b3 c3 i) (xor_bit_assoc a2 b2 c2 i)
        (xor_bit_assoc a1 b1 c1 i) (xor_bit_assoc a0 b0 c0 i)

pub ⊕-zero : (a : Byte) → a ⊕ zero_byte ≡ a
unfolding ◌⊕◌
⊕-zero (bits a7 a6 a5 a4 a3 a2 a1 a0) = λ i.
    bits (xor_bit-false a7 i) (xor_bit-false a6 i) (xor_bit-false a5 i) (xor_bit-false a4 i)
      (xor_bit-false a3 i) (xor_bit-false a2 i) (xor_bit-false a1 i) (xor_bit-false a0 i)

pub ⊕_self : (a : Byte) → a ⊕ a ≡ zero_byte
unfolding ◌⊕◌
⊕_self (bits a7 a6 a5 a4 a3 a2 a1 a0) = λ i.
    bits (xor_bit_self a7 i) (xor_bit_self a6 i) (xor_bit_self a5 i) (xor_bit_self a4 i)
      (xor_bit_self a3 i) (xor_bit_self a2 i) (xor_bit_self a1 i) (xor_bit_self a0 i)

pub zero-⊕ : (a : Byte) → zero_byte ⊕ a ≡ a
zero-⊕ a = ⊕_comm zero_byte a ∙ ⊕-zero a

-- (a + b) + (c + d) = (a + c) + (b + d)
pub ⊕_interchange : (a b c d : Byte) → a ⊕ b ⊕ (c ⊕ d) ≡ a ⊕ c ⊕ (b ⊕ d)
⊕_interchange a b c d =
    ⊕_assoc a b (c ⊕ d)
    ∙ ap (λ t. a ⊕ t) (sym (⊕_assoc b c d) ∙ ap (λ t. t ⊕ d) (⊕_comm b c) ∙ ⊕_assoc c b d)
    ∙ sym (⊕_assoc a c (b ⊕ d))

pub ⊕_cancel : (a b : Byte) → a ⊕ (a ⊕ b) ≡ b
⊕_cancel a b = sym (⊕_assoc a a b) ∙ ap (λ t. t ⊕ b) (⊕_self a) ∙ zero-⊕ b
