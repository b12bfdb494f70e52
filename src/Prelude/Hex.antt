-- ===== src/Prelude/Hex.antt =====
-- Package encoding/hex: EncodeToString and DecodeString, and %x of package fmt.
use Prim.Native.Nat.{ℕ, zero, suc, ◌+◌, ◌-◌, ◌*◌, ◌/◌, ◌%◌, ◌<◌}
use mathlib.Core.Path.{◌≡◌, refl}
use mathlib.Core.Bool.{◌&&◌}
use mathlib.Core.Option.{Option, none, some}
use mathlib.Core.List.{[], ◌∷◌}
use native.Mathlib.Omega.{arith}
use openbao_attested_unseal.Prelude.Tests.{ltb, leb, if◌then◌else◌}
use openbao_attested_unseal.Prelude.Lists.{All}
use openbao_attested_unseal.Prelude.Text.{Text}

abbrev pub IsByte : ℕ → Type 0
IsByte b = b < 256

hex_digit : ℕ → ℕ
hex_digit n = if ltb n 10 then 48 + n else 87 + n

hex_value : ℕ → Option ℕ
hex_value c =
    if leb 48 c && leb c 57
    then some (c - 48)
    else if leb 97 c && leb c 102
    then some (c - 87)
    else if leb 65 c && leb c 70
    then some (c - 55)
    else none

-- hex.EncodeToString
unfoldable pub encode_hex : Text → Text
unfolding hex_digit
encode_hex [] = []
encode_hex (b ∷ bs) = hex_digit (b / 16) ∷ hex_digit (b % 16) ∷ encode_hex bs

join_byte : Option ℕ → Option ℕ → Option Text → Option Text
join_byte (some high) (some low) (some rest) = some ((high * 16 + low) ∷ rest)
join_byte _ _ _ = none

-- hex.DecodeString
unfoldable pub decode_hex : Text → Option Text
unfolding hex_value join_byte
decode_hex [] = some []
decode_hex (c ∷ []) = none
decode_hex (c ∷ d ∷ t) = join_byte (hex_value c) (hex_value d) (decode_hex t)

hex_value-hex_digit : (n : ℕ) → n < 16 → hex_value (hex_digit n) ≡ some n
unfolding hex_value hex_digit
hex_value-hex_digit n h = ground arith

-- What is encoded is decoded.
pub decode_hex-encode_hex : (t : Text) → All IsByte t → decode_hex (encode_hex t) ≡ some t
unfolding decode_hex encode_hex join_byte
decode_hex-encode_hex [] h = refl
decode_hex-encode_hex (b ∷ bs) h =
    rw
      (
        hex_value-hex_digit (b / 16) (omega (arith, h.0)),
        hex_value-hex_digit (b % 16) (omega arith),
        decode_hex-encode_hex bs h.1,
      )
      (ground arith)

hex_loop : ℕ → ℕ → Text → Text
unfolding hex_digit
hex_loop zero n rest = rest
hex_loop (suc fuel) n rest =
    let more = hex_loop fuel (n / 16) (hex_digit (n % 16) ∷ rest) in
    if ltb n 16 then hex_digit n ∷ rest else more

-- fmt.Sprintf("%x", n)
unfoldable pub format_hex : ℕ → Text
unfolding hex_loop
format_hex n = hex_loop (suc n) n []
