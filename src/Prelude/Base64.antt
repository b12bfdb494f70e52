-- ===== src/Prelude/Base64.antt =====
-- encoding/base64: StdEncoding.DecodeString. New lines are skipped; the last group may be padded, and
-- its unused bits are ignored.
use Prim.Native.Nat.{ℕ, ◌+◌, ◌-◌, ◌*◌, ◌/◌, ◌%◌}
use mathlib.Core.Bool.{◌&&◌, ◌||◌}
use mathlib.Core.Option.{Option, none, some}
use mathlib.Core.List.{[], ◌∷◌, ◌++◌}
use openbao_attested_unseal.Prelude.Tests.{leb, ◌==◌, if◌then◌else◌}
use openbao_attested_unseal.Prelude.Lists.{is_nil}
use openbao_attested_unseal.Prelude.Text.{Text}

-- 'A' to 'Z', 'a' to 'z', '0' to '9', '+' and '/'
base64_value : ℕ → Option ℕ
base64_value c =
    if leb 65 c && leb c 90
    then some (c - 65)
    else if leb 97 c && leb c 122
    then some (c - 71)
    else if leb 48 c && leb c 57
    then some (c + 4)
    else if c == 43
    then some 62
    else if c == 47
    then some 63
    else none

-- '='
abbrev padding : ℕ
padding = 61

-- A group of four characters, padded only where no character follows it.
decode_group : ℕ → ℕ → ℕ → ℕ → Text → Option Text
unfolding base64_value
decode_group a b c d after = elim (base64_value a) [
  | none ↦ none
  | some p ↦ elim (base64_value b) [
    | none ↦ none
    | some q ↦
        let first = p * 4 + q / 16 in
        if c == padding && (d == padding && is_nil after)
        then some (first ∷ [])
        else elim (base64_value c) [
          | none ↦ none
          | some r ↦
              let second = q % 16 * 16 + r / 4 in
              if d == padding && is_nil after
              then some (first ∷ second ∷ [])
              else elim (base64_value d) [
                | none ↦ none
                | some s ↦ some (first ∷ second ∷ (r % 4 * 64 + s) ∷ [])
              ]
        ]
  ]
]

decode_groups : Text → Option Text
unfolding decode_group
decode_groups [] = some []
decode_groups (a ∷ b ∷ c ∷ d ∷ t) =
    let rest = decode_groups t in
    elim (decode_group a b c d t) [
      | none ↦ none
      | some bytes ↦ elim rest [ none ↦ none | some more ↦ some (bytes ++ more) ]
    ]
decode_groups _ = none

without_newlines : Text → Text
without_newlines [] = []
without_newlines (c ∷ t) =
    let rest = without_newlines t in if c == 10 || c == 13 then rest else c ∷ rest

unfoldable pub decode_base64 : Text → Option Text
unfolding decode_groups without_newlines
decode_base64 t = decode_groups (without_newlines t)
