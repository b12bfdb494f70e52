-- ===== src/Recovery/Field/Every.antt =====
-- A test of every byte by evaluation.
use openbao_attested_unseal.Prelude.{
  Bool-cases, inl, inr, sym, ◌∙◌, ap, ◌≡◌, Bool, true, false, ◌&&◌, arith,
}
use openbao_attested_unseal.Recovery.Field.{
  Byte, bits, same_bit, same_byte, is_zero, zero_byte, ◌⊕◌,
}
use openbao_attested_unseal.Recovery.Field.Xor.{⊕_cancel, ⊕-zero}

abbrev all_bits : (Bool → Bool) → Bool
all_bits p = p true && p false

all_bits_sound : (p : Bool → Bool) (b : Bool) → all_bits p ≡ true → p b ≡ true
all_bits_sound p true h = ground arith
all_bits_sound p false h = ground arith

unfoldable pub every_byte : (Byte → Bool) → Bool
every_byte p = all_bits λ b7. all_bits λ b6. all_bits λ b5. all_bits λ b4.
    all_bits λ b3. all_bits λ b2. all_bits λ b1. all_bits λ b0. p (bits b7 b6 b5 b4 b3 b2 b1 b0)

pub every_byte_sound : (p : Byte → Bool) (b : Byte) → every_byte p ≡ true → p b ≡ true
unfolding every_byte
every_byte_sound p (bits b7 b6 b5 b4 b3 b2 b1 b0) h =
    let h7 =
      all_bits_sound
        (λ b7. all_bits (λ b6. all_bits (λ b5. all_bits (λ b4. all_bits (λ b3.
          all_bits (λ b2. all_bits (λ b1. all_bits (λ b0. p (bits b7 b6 b5 b4 b3 b2 b1 b0)))))))))
        b7 h in
    let h6 =
      all_bits_sound
        (λ b6. all_bits (λ b5. all_bits (λ b4. all_bits (λ b3.
          all_bits (λ b2. all_bits (λ b1. all_bits (λ b0. p (bits b7 b6 b5 b4 b3 b2 b1 b0))))))))
        b6 h7 in
    let h5 =
      all_bits_sound
        (λ b5. all_bits (λ b4. all_bits (λ b3.
          all_bits (λ b2. all_bits (λ b1. all_bits (λ b0. p (bits b7 b6 b5 b4 b3 b2 b1 b0)))))))
        b5 h6 in
    let h4 =
      all_bits_sound
        (λ b4. all_bits (λ b3.
          all_bits (λ b2. all_bits (λ b1. all_bits (λ b0. p (bits b7 b6 b5 b4 b3 b2 b1 b0))))))
        b4 h5 in
    let h3 =
      all_bits_sound
        (λ b3. all_bits (λ b2. all_bits (λ b1. all_bits (λ b0. p (bits b7 b6 b5 b4 b3 b2 b1 b0)))))
        b3 h4 in
    let h2 =
      all_bits_sound (λ b2. all_bits (λ b1. all_bits (λ b0. p (bits b7 b6 b5 b4 b3 b2 b1 b0)))) b2
        h3 in
    let h1 = all_bits_sound (λ b1. all_bits (λ b0. p (bits b7 b6 b5 b4 b3 b2 b1 b0))) b1 h2 in
    let h0 = all_bits_sound (λ b0. p (bits b7 b6 b5 b4 b3 b2 b1 b0)) b0 h1 in h0

same_bit_sound : (a b : Bool) → same_bit a b ≡ true → a ≡ b
same_bit_sound a b h = ground arith

and_left : (a b : Bool) → (a && b) ≡ true → a ≡ true
and_left a b h = ground arith

and_right : (a b : Bool) → (a && b) ≡ true → b ≡ true
and_right a b h = ground arith

pub same_byte_sound : (a b : Byte) → same_byte a b ≡ true → a ≡ b
same_byte_sound (bits a7 a6 a5 a4 a3 a2 a1 a0) (bits b7 b6 b5 b4 b3 b2 b1 b0) h =
    let h6 = and_right _ _ h in
    let h5 = and_right _ _ h6 in
    let h4 = and_right _ _ h5 in
    let h3 = and_right _ _ h4 in
    let h2 = and_right _ _ h3 in
    let h1 = and_right _ _ h2 in
    let e7 = same_bit_sound a7 b7 (and_left _ _ h) in
    let e6 = same_bit_sound a6 b6 (and_left _ _ h6) in
    let e5 = same_bit_sound a5 b5 (and_left _ _ h5) in
    let e4 = same_bit_sound a4 b4 (and_left _ _ h4) in
    let e3 = same_bit_sound a3 b3 (and_left _ _ h3) in
    let e2 = same_bit_sound a2 b2 (and_left _ _ h2) in
    let e1 = same_bit_sound a1 b1 (and_left _ _ h1) in
    let e0 = same_bit_sound a0 b0 (and_right _ _ h1) in
    λ i. bits (e7 i) (e6 i) (e5 i) (e4 i) (e3 i) (e2 i) (e1 i) (e0 i)

same_bit_refl : (a : Bool) → same_bit a a ≡ true
same_bit_refl a = ground arith

same_bit_symm : (a b : Bool) → same_bit a b ≡ same_bit b a
same_bit_symm a b = ground arith

pub same_byte_refl : (a : Byte) → same_byte a a ≡ true
same_byte_refl (bits a7 a6 a5 a4 a3 a2 a1 a0) = rw (same_bit_refl a7) (
    rw (same_bit_refl a6) (
      rw (same_bit_refl a5) (
        rw (same_bit_refl a4) (
          rw (same_bit_refl a3)
            (rw (same_bit_refl a2) (rw (same_bit_refl a1) (same_bit_refl a0)))))))

pub same_byte_symm : (a b : Byte) → same_byte a b ≡ same_byte b a
same_byte_symm (bits a7 a6 a5 a4 a3 a2 a1 a0) (bits b7 b6 b5 b4 b3 b2 b1 b0) = λ i.
    same_bit_symm a7 b7 i
    && (same_bit_symm a6 b6 i
        && (same_bit_symm a5 b5 i
            && (same_bit_symm a4 b4 i
                && (same_bit_symm a3 b3 i
                    && (same_bit_symm a2 b2 i
                        && (same_bit_symm a1 b1 i && same_bit_symm a0 b0 i))))))

is_zero-eq : (b : Byte) → is_zero b ≡ true → b ≡ zero_byte
is_zero-eq b h = ground arith

-- The sum of two bytes is zero only where they are equal.
pub is_zero-⊕ : (a b : Byte) → same_byte a b ≡ false → is_zero (a ⊕ b) ≡ false
is_zero-⊕ a b h = elim (Bool-cases (is_zero (a ⊕ b))) [
  | inr e ↦ e
  | inl e ↦
      let sum : a ⊕ b ≡ zero_byte = is_zero-eq (a ⊕ b) e in
      let same : b ≡ a = sym (⊕_cancel a b) ∙ ap (λ t. a ⊕ t) sum ∙ ⊕-zero a in
      cc (sym (rw same at h) ∙ same_byte_refl a)
]
