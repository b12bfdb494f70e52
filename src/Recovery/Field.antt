-- ===== src/Recovery/Field.antt =====
-- internal/recovery/package.go: gfMul, gfPow and gfDiv. A byte is its eight bits, the highest first.
pub mod Every
pub mod Xor
pub mod Product
pub mod Inverse
use openbao_attested_unseal.Prelude.{
  ℕ, zero, suc, ◌/◌, ◌%◌, Bool, true, false, not, ◌&&◌, ◌==◌, if◌then◌else◌,
}
use openbao_attested_unseal.Prelude.Result.{Result, ok, err, invalid_share}

pub data Byte : Type 0 where
  bits : Bool → Bool → Bool → Bool → Bool → Bool → Bool → Bool → Byte

abbrev pub zero_byte : Byte
zero_byte = bits false false false false false false false false

abbrev pub one_byte : Byte
one_byte = bits false false false false false false false true

abbrev pub xor_bit : Bool → Bool → Bool
xor_bit true b = not b
xor_bit false b = b

-- a ^ b
infixl 65 ◌⊕◌
unfoldable pub ◌⊕◌ : Byte → Byte → Byte
bits a7 a6 a5 a4 a3 a2 a1 a0 ⊕ bits b7 b6 b5 b4 b3 b2 b1 b0 =
    bits (xor_bit a7 b7) (xor_bit a6 b6) (xor_bit a5 b5) (xor_bit a4 b4) (xor_bit a3 b3)
      (xor_bit a2 b2) (xor_bit a1 b1) (xor_bit a0 b0)

-- a == b
abbrev same_bit : Bool → Bool → Bool
same_bit true b = b
same_bit false b = not b

abbrev pub same_byte : Byte → Byte → Bool
same_byte (bits a7 a6 a5 a4 a3 a2 a1 a0) (bits b7 b6 b5 b4 b3 b2 b1 b0) =
    same_bit a7 b7
    && (same_bit a6 b6
        && (same_bit a5 b5
            && (same_bit a4 b4
                && (same_bit a3 b3 && (same_bit a2 b2 && (same_bit a1 b1 && same_bit a0 b0))))))

-- b == 0
abbrev pub is_zero : Byte → Bool
is_zero (bits false false false false false false false false) = true
is_zero _ = false

-- b & 1 != 0
abbrev low_bit : Byte → Bool
low_bit (bits b7 b6 b5 b4 b3 b2 b1 b0) = b0

-- a & 0x80 != 0
abbrev high_bit : Byte → Bool
high_bit (bits a7 a6 a5 a4 a3 a2 a1 a0) = a7

-- b >>= 1
abbrev shift_right : Byte → Byte
shift_right (bits b7 b6 b5 b4 b3 b2 b1 b0) = bits false b7 b6 b5 b4 b3 b2 b1

-- a <<= 1
abbrev shift_left : Byte → Byte
shift_left (bits a7 a6 a5 a4 a3 a2 a1 a0) = bits a6 a5 a4 a3 a2 a1 a0 false

-- 0x1b
abbrev reduction : Byte
reduction = bits false false false true true false true true

-- The change of `a` in one round of gfMul: the shift, and the reduction where a bit is carried out.
double : Byte → Byte
double a = if high_bit a then shift_left a ⊕ reduction else shift_left a

-- The loop of gfMul. A byte is zero after eight shifts, so that eight rounds are enough.
mul_loop : ℕ → Byte → Byte → Byte → Byte
unfolding double
mul_loop zero a b product = product
mul_loop (suc rounds) a b product =
    let rest =
      mul_loop rounds (double a) (shift_right b) (if low_bit b then product ⊕ a else product) in
    if is_zero b then product else rest

-- gfMul
unfoldable pub gf_mul : Byte → Byte → Byte
unfolding mul_loop
gf_mul a b = mul_loop 8 a b zero_byte

-- The loop of gfPow. The power is halved in each round, so that as many rounds as the power are enough.
pow_loop : ℕ → Byte → ℕ → Byte → Byte
pow_loop zero a power result = result
pow_loop (suc rounds) a power result =
    let rest =
      pow_loop rounds (gf_mul a a) (power / 2)
        (if power % 2 == 1 then gf_mul result a else result) in
    if power == 0 then result else rest

-- gfPow
unfoldable pub gf_pow : Byte → ℕ → Byte
unfolding pow_loop
gf_pow a power = pow_loop power a power one_byte

-- gfDiv
unfoldable pub gf_div : Byte → Byte → Result Byte
gf_div a b = if is_zero b then err invalid_share else ok (gf_mul a (gf_pow b 254))
