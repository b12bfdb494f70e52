-- ===== src/Prelude/Space.antt =====
-- strings.TrimSpace(s) == "": whether a text holds nothing but the white space of Unicode, in UTF-8.
use Prim.Native.Nat.{ℕ}
use mathlib.Core.Bool.{Bool, true, false, ◌&&◌, ◌||◌}
use mathlib.Core.List.{[], ◌∷◌}
use openbao_attested_unseal.Prelude.Tests.{leb, ◌==◌, if◌then◌else◌}
use openbao_attested_unseal.Prelude.Text.{Text}

-- The bytes of a white-space character read so far.
pub data SpaceState : Type 0 where
  between after_c2 after_e1 after_e1_9a after_e2 after_e2_80 after_e2_81 after_e3 after_e3_80
        broken :
      SpaceState

-- U+0085, U+00A0, U+1680, U+2000 to U+200A, U+2028, U+2029, U+202F, U+205F and U+3000.
space_step : SpaceState → ℕ → SpaceState
space_step between c =
    if leb 9 c && leb c 13 || c == 32
    then between
    else if c == 194
    then after_c2
    else if c == 225
    then after_e1
    else if c == 226
    then after_e2
    else if c == 227
    then after_e3
    else broken
space_step after_c2 c = if c == 133 || c == 160 then between else broken
space_step after_e1 c = if c == 154 then after_e1_9a else broken
space_step after_e1_9a c = if c == 128 then between else broken
space_step after_e2 c = if c == 128 then after_e2_80 else if c == 129 then after_e2_81 else broken
space_step after_e2_80 c =
    if leb 128 c && leb c 138 || (c == 168 || (c == 169 || c == 175)) then between else broken
space_step after_e2_81 c = if c == 159 then between else broken
space_step after_e3 c = if c == 128 then after_e3_80 else broken
space_step after_e3_80 c = if c == 128 then between else broken
space_step broken c = broken

all_space : SpaceState → Text → Bool
unfolding space_step
all_space between [] = true
all_space _ [] = false
all_space s (c ∷ t) = all_space (space_step s c) t

unfoldable pub is_blank : Text → Bool
unfolding all_space
is_blank t = all_space between t
