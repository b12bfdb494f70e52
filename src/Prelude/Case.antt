-- ===== src/Prelude/Case.antt =====
-- strings.ToLower. A text of ASCII is mapped byte by byte; any other goes through the table of
-- Unicode, which is a parameter.
use Prim.Native.Nat.{ℕ, ◌+◌}
use mathlib.Core.Path.{◌≡◌, refl}
use mathlib.Core.Logic.{inl, inr}
use mathlib.Core.Bool.{Bool, true, false, ◌&&◌}
use mathlib.Core.List.{[], ◌∷◌}
use native.Mathlib.Omega.{arith}
use openbao_attested_unseal.Prelude.Tests.{ltb, leb, if◌then◌else◌, Bool-cases}
use openbao_attested_unseal.Prelude.Text.{Text}

unfoldable pub is_ascii : Text → Bool
is_ascii [] = true
is_ascii (c ∷ t) = ltb c 128 && is_ascii t

lower_byte : ℕ → ℕ
lower_byte c = if leb 65 c && leb c 90 then c + 32 else c

lower_ascii : Text → Text
unfolding lower_byte
lower_ascii [] = []
lower_ascii (c ∷ t) = lower_byte c ∷ lower_ascii t

-- strings.Map(unicode.ToLower, t), for a text with other bytes than ASCII
abbrev pub LowerUnicode : Type 0
LowerUnicode = Text → Text

-- strings.ToLower
unfoldable pub to_lower : LowerUnicode → Text → Text
unfolding lower_ascii is_ascii
to_lower lower t = if is_ascii t then lower_ascii t else lower t

-- A text that is in lower case stays as it is.
abbrev pub LowerLaws : LowerUnicode → Type 0
LowerLaws lower = (t : Text) → is_ascii t ≡ false → to_lower lower (lower t) ≡ lower t

is_ascii-lower_ascii : (t : Text) → is_ascii t ≡ true → is_ascii (lower_ascii t) ≡ true
unfolding is_ascii lower_ascii lower_byte
is_ascii-lower_ascii [] h = refl
is_ascii-lower_ascii (c ∷ t) h = ground (arith, is_ascii-lower_ascii t)

lower_ascii_idem : (t : Text) → lower_ascii (lower_ascii t) ≡ lower_ascii t
unfolding lower_ascii lower_byte
lower_ascii_idem [] = refl
lower_ascii_idem (c ∷ t) = ground (arith, lower_ascii_idem t)

pub to_lower_idem :
    (lower : LowerUnicode) (t : Text)
    → LowerLaws lower
    → to_lower lower (to_lower lower t) ≡ to_lower lower t
unfolding to_lower
to_lower_idem lower t laws = elim (Bool-cases (is_ascii t)) [
  | inl e ↦ rw e (rw (is_ascii-lower_ascii t e) (lower_ascii_idem t))
  | inr e ↦ rw e (laws t e)
]
