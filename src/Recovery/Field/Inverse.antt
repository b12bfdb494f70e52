-- ===== src/Recovery/Field/Inverse.antt =====
-- gfDiv by a nonzero byte is the division of the field.
use openbao_attested_unseal.Prelude.{◌≡◌, refl, ap, ◌∙◌, Bool, true, false, ◌||◌, arith}
use openbao_attested_unseal.Prelude.Result.{ok}
use openbao_attested_unseal.Recovery.Field.{
  Byte, one_byte, ◌⊕◌, is_zero, same_byte, gf_mul, gf_pow, gf_div,
}
use openbao_attested_unseal.Recovery.Field.Every.{every_byte, every_byte_sound, same_byte_sound}
use openbao_attested_unseal.Recovery.Field.Product.{gf_mul_comm, gf_mul_assoc, gf_mul-one}

abbrev is_inverted : Byte → Bool
is_inverted b = is_zero b || same_byte (gf_mul b (gf_pow b 254)) one_byte

inverse_table : every_byte is_inverted ≡ true
unfolding every_byte gf_mul gf_pow ◌⊕◌
inverse_table = refl

-- a or b, where a is false
or_right : (a b : Bool) → (a || b) ≡ true → a ≡ false → b ≡ true
or_right a b h e = ground arith

-- The power 254 of a nonzero byte is its inverse.
pub gf_mul-gf_pow : (b : Byte) → is_zero b ≡ false → gf_mul b (gf_pow b 254) ≡ one_byte
gf_mul-gf_pow b h =
    same_byte_sound _ _ (or_right (is_zero b) _ (every_byte_sound is_inverted b inverse_table) h)

-- The quotient by a nonzero byte.
abbrev pub over : Byte → Byte → Byte
over a b = gf_mul a (gf_pow b 254)

pub gf_div-over : (a b : Byte) → is_zero b ≡ false → gf_div a b ≡ ok (over a b)
unfolding gf_div
gf_div-over a b h = rw h refl

pub over-gf_mul : (a b : Byte) → is_zero b ≡ false → gf_mul (over a b) b ≡ a
over-gf_mul a b h =
    gf_mul_assoc a (gf_pow b 254) b
    ∙ ap (gf_mul a) (gf_mul_comm (gf_pow b 254) b ∙ gf_mul-gf_pow b h)
    ∙ gf_mul-one a

-- Division by a nonzero byte succeeds, and multiplying the quotient by the divisor gives the dividend.
pub gf_div-gf_mul :
    (a b : Byte) → is_zero b ≡ false → (q : Byte) × (gf_div a b ≡ ok q) × (gf_mul q b ≡ a)
gf_div-gf_mul a b h = (over a b, gf_div-over a b h, over-gf_mul a b h)
