-- ===== src/Recovery/Shares.antt =====
-- internal/recovery/package.go: evalPolynomial, splitSecret and combineShares. `random` gives the
-- outcome of the read of the coefficients at each offset of the secret.
pub mod Polynomial
pub mod Interpolate
pub mod Split
pub mod Combine
use openbao_attested_unseal.Prelude.{
  ℕ, zero, suc, ◌+◌, ◌/◌, ◌%◌, Bool, true, false, ◌||◌, Option, List, [], ◌∷◌, ◌++◌, ltb, ◌==◌,
  length, if◌then◌else◌,
}
use openbao_attested_unseal.Prelude.Result.{
  Result, ok, err, threshold_not_met, invalid_share, other, ◌>>=◌, ◌>>◌, guard, wrap_err,
}
use openbao_attested_unseal.Recovery.Field.{
  Byte, bits, zero_byte, one_byte, ◌⊕◌, is_zero, gf_mul, gf_div, same_byte,
}

-- byte(n)
unfoldable pub byte_of : ℕ → Byte
byte_of n =
    bits (n / 128 % 2 == 1) (n / 64 % 2 == 1) (n / 32 % 2 == 1) (n / 16 % 2 == 1) (n / 8 % 2 == 1)
      (n / 4 % 2 == 1) (n / 2 % 2 == 1) (n % 2 == 1)

pub record SharePoint : Type 0 where
  pub index : Byte
  pub value : List Byte

-- evalPolynomial: the loop reads the coefficients from the last one to the first.
unfoldable pub eval_polynomial : List Byte → Byte → Byte
eval_polynomial [] x = zero_byte
eval_polynomial (c ∷ cs) x = gf_mul (eval_polynomial cs x) x ⊕ c

-- The points of splitSecret before any offset is written: indexes first, first + 1, ....
blank_points : ℕ → ℕ → List SharePoint
blank_points zero first = []
blank_points (suc count) first =
    record { index = byte_of first; value = [] } ∷ blank_points count (suc first)

-- The writes at one offset. The offsets are written in order, so a value is what is written so far.
write_points : List Byte → List SharePoint → List SharePoint
write_points coefficients [] = []
write_points coefficients (p ∷ ps) =
    record { index = p.index; value = p.value ++ eval_polynomial coefficients p.index ∷ [] }
    ∷ write_points coefficients ps

-- The coefficients above the constant one; nothing is read for the threshold 1.
read_coefficients : ℕ → Result (List Byte) → Result (List Byte)
read_coefficients threshold outcome = if ltb 1 threshold then wrap_err outcome other else ok []

split_loop :
    ℕ → (ℕ → Result (List Byte)) → ℕ → List Byte → List SharePoint → Result (List SharePoint)
split_loop threshold random offset [] points = ok points
split_loop threshold random offset (b ∷ secret) points = do
  above ← read_coefficients threshold (random offset)
  split_loop threshold random (suc offset) secret (write_points (b ∷ above) points)

-- splitSecret
unfoldable pub split_secret :
    List Byte → ℕ → ℕ → (ℕ → Result (List Byte)) → Result (List SharePoint)
unfolding split_loop blank_points write_points read_coefficients eval_polynomial
split_secret secret threshold shares random =
    split_loop threshold random 0 secret (blank_points shares 1)

unfoldable pub contains_byte : List Byte → Byte → Bool
contains_byte [] b = false
contains_byte (a ∷ seen) b = same_byte a b || contains_byte seen b

-- The checks of combineShares over its points.
check_points : ℕ → List Byte → List SharePoint → Result (Unit {0})
check_points secret_len seen [] = ok tt
check_points secret_len seen (p ∷ ps) =
    if is_zero p.index
    then err invalid_share
    else if contains_byte seen p.index
    then err invalid_share
    else guard (length p.value == secret_len) invalid_share
      >> check_points secret_len (p.index ∷ seen) ps

-- value[offset]; the lengths are checked before.
byte_at : List Byte → ℕ → Byte
byte_at [] offset = zero_byte
byte_at (b ∷ value) zero = b
byte_at (b ∷ value) (suc offset) = byte_at value offset

-- The loop over `j` of combineShares for the point at place `i`.
basis_loop : ℕ → Byte → ℕ → List SharePoint → Byte → Result Byte
basis_loop i x j [] basis = ok basis
basis_loop i x j (q ∷ points) basis =
    let skip = basis_loop i x (suc j) points basis in
    let go = (do
      divisor ← gf_div q.index (x ⊕ q.index)
      basis_loop i x (suc j) points (gf_mul basis divisor)) in
    if i == j then skip else go

-- The loop over `i`.
value_loop : List SharePoint → ℕ → ℕ → List SharePoint → Byte → Result Byte
unfolding basis_loop byte_at
value_loop points offset i [] value = ok value
value_loop points offset i (p ∷ ps) value = do
  basis ← basis_loop i p.index 0 points one_byte
  value_loop points offset (suc i) ps (value ⊕ gf_mul (byte_at p.value offset) basis)

secret_loop : List SharePoint → ℕ → ℕ → Result (List Byte)
unfolding value_loop
secret_loop points zero offset = ok []
secret_loop points (suc left) offset = do
  value ← value_loop points offset 0 points zero_byte
  secret ← secret_loop points left (suc offset)
  ok (value ∷ secret)

-- combineShares
unfoldable pub combine_shares : List SharePoint → Result (List Byte)
unfolding check_points contains_byte secret_loop
combine_shares [] = err threshold_not_met
combine_shares (p ∷ ps) = do
  check_points (length p.value) [] (p ∷ ps)
  secret_loop (p ∷ ps) (length p.value) 0
