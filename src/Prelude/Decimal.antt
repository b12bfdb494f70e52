-- ===== src/Prelude/Decimal.antt =====
-- Decimal numbers as package fmt prints them (%d) and strconv.ParseUint reads them.
use Prim.Native.Nat.{ℕ, zero, suc, ◌+◌, ◌-◌, ◌*◌, ◌/◌, ◌%◌, ◌≤◌, ◌<◌, ◌^◌}
use mathlib.Core.Path.{◌≡◌, refl, ◌∙◌}
use mathlib.Core.Logic.{◌≢◌, inl, inr}
use mathlib.Core.Bool.{◌&&◌}
use mathlib.Core.Option
use mathlib.Core.Option.{Option, none, some}
use mathlib.Core.List.{[], ◌∷◌}
use native.Mathlib.Omega.{arith}
use openbao_attested_unseal.Prelude.Tests.{ltb, leb, ◌==◌, if◌then◌else◌, Bool-cases}
use openbao_attested_unseal.Prelude.Lists.{All}
use openbao_attested_unseal.Prelude.Int.{ℤ, pos, negsuc}
use openbao_attested_unseal.Prelude.Text.{Text}

-- The digits of n, the highest first, in front of what is written already.
format_loop : ℕ → ℕ → Text → Text
format_loop zero n rest = rest
format_loop (suc fuel) n rest =
    let more = format_loop fuel (n / 10) ((48 + n % 10) ∷ rest) in
    if ltb n 10 then (48 + n) ∷ rest else more

-- fmt.Sprintf("%d", n)
unfoldable pub format_uint : ℕ → Text
unfolding format_loop
format_uint n = format_loop (suc n) n []

read_digits : ℕ → Text → Option ℕ
read_digits n [] = some n
read_digits n (c ∷ s) = if leb 48 c && leb c 57 then read_digits (n * 10 + (c - 48)) s else none

in_range : ℕ → Option ℕ → Option ℕ
in_range top none = none
in_range top (some n) = if leb n top then some n else none

-- strconv.ParseUint(s, 10, bits), where `top` is 2 ^ bits - 1. Its loop stops at the first digit
-- that passes the range, and the value only grows, so the range may be tested at the end.
unfoldable pub parse_uint : ℕ → Text → Option ℕ
unfolding read_digits in_range
parse_uint top [] = none
parse_uint top (c ∷ s) = in_range top (read_digits 0 (c ∷ s))

read_digits-format_loop :
    (fuel n : ℕ) (rest : Text)
    → n < fuel
    → read_digits 0 (format_loop fuel n rest) ≡ read_digits n rest
unfolding format_loop read_digits
read_digits-format_loop zero n rest h = elim h [ ]
read_digits-format_loop (suc fuel) n rest h = elim (Bool-cases (ltb n 10)) [
  | inl small ↦ rw small (ground arith)
  | inr big ↦
      rw big
        (read_digits-format_loop fuel (n / 10) ((48 + n % 10) ∷ rest) (ground arith) ∙ ground arith)
]

abbrev pub IsDigit : ℕ → Type 0
IsDigit c = (48 ≤ c) × (c ≤ 57)

format_loop-IsDigit :
    (fuel n : ℕ) (rest : Text) → All IsDigit rest → All IsDigit (format_loop fuel n rest)
unfolding format_loop
format_loop-IsDigit zero n rest h = h
format_loop-IsDigit (suc fuel) n rest h = elim (Bool-cases (ltb n 10)) [
  | inl small ↦ rw small ((ground arith, ground arith), h)
  | inr big ↦
      rw big
        (format_loop-IsDigit fuel (n / 10) ((48 + n % 10) ∷ rest) ((omega arith, omega arith), h))
]

format_loop-ne-nil : (fuel n c : ℕ) (rest : Text) → format_loop fuel n (c ∷ rest) ≢ []
unfolding format_loop
format_loop-ne-nil zero n c rest h = cc
format_loop-ne-nil (suc fuel) n c rest h =
    ground (arith, format_loop-ne-nil fuel (n / 10) (48 + n % 10) (c ∷ rest))

format_uint-ne-nil : (n : ℕ) → format_uint n ≢ []
unfolding format_uint
format_uint-ne-nil n h = ground (arith, format_loop-ne-nil n (n / 10) (48 + n % 10) [])

pub format_uint-IsDigit : (n : ℕ) → All IsDigit (format_uint n)
unfolding format_uint
format_uint-IsDigit n = format_loop-IsDigit (suc n) n [] tt

parse_uint_ne_nil :
    (top : ℕ) (s : Text) → s ≢ [] → parse_uint top s ≡ in_range top (read_digits 0 s)
unfolding parse_uint
parse_uint_ne_nil top [] h = absurd (h refl)
parse_uint_ne_nil top (c ∷ s) h = refl

pub parse_uint-format_uint : (top n : ℕ) → n ≤ top → parse_uint top (format_uint n) ≡ some n
parse_uint-format_uint top n h =
    parse_uint_ne_nil top (format_uint n) (format_uint-ne-nil n)
    ∙ unfold format_uint read_digits in_range in
      rw (read_digits-format_loop (suc n) n [] (omega arith)) (ground arith)

-- strconv.Atoi on a machine whose int has 64 bits
unfoldable pub atoi : Text → Option ℤ
atoi [] = none
atoi (c ∷ s) =
    if c == b'-'
    then Option.map (λ n. if n == 0 then pos 0 else negsuc (n - 1)) (parse_uint (2 ^ 63) s)
    else Option.map pos (parse_uint (2 ^ 63 - 1) (if c == b'+' then s else c ∷ s))

-- strconv.Itoa
unfoldable pub itoa : ℤ → Text
itoa (pos n) = format_uint n
itoa (negsuc n) = b'-' ∷ format_uint (n + 1)
