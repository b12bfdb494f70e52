-- ===== src/Recovery/Shares/Combine.antt =====
-- combineShares computes the interpolation at zero of its points.
use mathlib.Core.List.{append_assoc}
use openbao_attested_unseal.Prelude.{
  ℕ, zero, suc, ◌+◌, ◌≤◌, ◌<◌, ◌≡◌, refl, ap, sym, ◌∙◌, false, List, [], ◌∷◌, ◌++◌, arith, length,
  All, length-append, ==_iff, inl, inr, Bool-cases, ◌==◌,
}
use openbao_attested_unseal.Prelude.Result.{ok, ◌>>◌}
use openbao_attested_unseal.Recovery.Field.{
  Byte, zero_byte, one_byte, ◌⊕◌, is_zero, gf_mul, same_byte,
}
use openbao_attested_unseal.Recovery.Field.Every.{same_byte_refl, same_byte_symm, is_zero-⊕}
use openbao_attested_unseal.Recovery.Field.Xor.{⊕_assoc, ⊕-zero, zero-⊕}
use openbao_attested_unseal.Recovery.Field.Product.{gf_mul_comm, gf_mul_assoc, gf_mul-one}
use openbao_attested_unseal.Recovery.Field.Inverse.{over, gf_div-over}
use openbao_attested_unseal.Recovery.Shares.{
  SharePoint, eval_polynomial, contains_byte, check_points, byte_at, basis_loop, value_loop,
  secret_loop, combine_shares,
}
use openbao_attested_unseal.Recovery.Shares.Interpolate.{
  weight, lagrange, Misses, IsDistinct, lagrange-eval_polynomial,
}

abbrev pub indices : List SharePoint → List Byte
indices [] = []
indices (p ∷ ps) = p.index ∷ indices ps

-- The place i is met where the index x is met, when the places count from j.
abbrev IsAligned : ℕ → Byte → ℕ → List SharePoint → Type 0
IsAligned i x j [] = Unit
IsAligned i x j (q ∷ points) = ((i == j) ≡ same_byte x q.index) × IsAligned i x (suc j) points

basis_loop-weight :
    (i : ℕ) (x : Byte) (j : ℕ) (points : List SharePoint) (basis : Byte)
    → IsAligned i x j points
    → basis_loop i x j points basis ≡ ok (gf_mul basis (weight x (indices points)))
unfolding basis_loop weight
basis_loop-weight i x j [] basis h = ap ok (sym (gf_mul-one basis))
basis_loop-weight i x j (q ∷ points) basis (here, h) = elim (Bool-cases (same_byte x q.index)) [
  | inl same ↦ rw (here, same) (basis_loop-weight i x (suc j) points basis h)
  | inr differs ↦
      rw (here, differs)
        (rw (gf_div-over q.index (x ⊕ q.index) (is_zero-⊕ x q.index differs)) (
          basis_loop-weight i x (suc j) points (gf_mul basis (over q.index (x ⊕ q.index))) h
          ∙ ap ok (gf_mul_assoc basis (over q.index (x ⊕ q.index)) (weight x (indices points)))))
]

IsAligned-after :
    (i : ℕ) (x : Byte) (j : ℕ) (points : List SharePoint)
    → i < j
    → Misses x (indices points)
    → IsAligned i x j points
IsAligned-after i x j [] lt h = tt
IsAligned-after i x j (q ∷ points) lt (hq, h) =
    (ground arith, IsAligned-after i x (suc j) points (omega arith) h)

Misses-middle :
    (x : Byte) (before : List SharePoint) (p : SharePoint) (after : List SharePoint)
    → Misses x (indices (before ++ p ∷ after))
    → same_byte x p.index ≡ false
Misses-middle x [] p after (h, _) = h
Misses-middle x (q ∷ before) p after (_, h) = Misses-middle x before p after h

IsAligned-at :
    (i j : ℕ) (before : List SharePoint) (p : SharePoint) (after : List SharePoint)
    → i ≡ j + length before
    → IsDistinct (indices (before ++ p ∷ after))
    → IsAligned i p.index j (before ++ p ∷ after)
IsAligned-at i j [] p after e (hp, h) = (
  rw (same_byte_refl p.index) (ground arith),
  IsAligned-after i p.index (suc j) after (omega arith) hp,
)
IsAligned-at i j (q ∷ before) p after e (hq, h) =
    let differs : same_byte p.index q.index ≡ false =
      same_byte_symm p.index q.index ∙ Misses-middle q.index before p after hq in
    (rw differs (ground arith), IsAligned-at i (suc j) before p after (omega arith) h)

-- The points carry the values of f at the offset.
abbrev HasValues : ℕ → (Byte → Byte) → List SharePoint → Type 0
HasValues offset f ps = All (λ p. byte_at p.value offset ≡ f p.index) ps

value_loop-lagrange :
    (points before ps : List SharePoint) (offset i : ℕ) (f : Byte → Byte) (value : Byte)
    → points ≡ before ++ ps
    → i ≡ length before
    → IsDistinct (indices points)
    → HasValues offset f ps
    → value_loop points offset i ps value ≡ ok (value ⊕ lagrange (indices ps) (indices points) f)
unfolding value_loop lagrange
value_loop-lagrange points before [] offset i f value e n h hv = ap ok (sym (⊕-zero value))
value_loop-lagrange points before (p ∷ ps) offset i f value e n h (hp, hv) =
    let aligned : IsAligned i p.index 0 points =
      rw e (IsAligned-at i 0 before p ps (omega arith) (rw e at h)) in
    let w = weight p.index (indices points) in
    rw (basis_loop-weight i p.index 0 points one_byte aligned) (
      value_loop-lagrange points (before ++ p ∷ []) ps offset (suc i) f
        (value ⊕ gf_mul (byte_at p.value offset) (gf_mul one_byte w))
        (e ∙ sym (append_assoc before (p ∷ []) ps)) (omega (arith, length-append before (p ∷ []))) h
        hv
      ∙ rw (hp, gf_mul_comm one_byte w, gf_mul-one w)
          (ap ok (⊕_assoc value (gf_mul (f p.index) w) (lagrange (indices ps) (indices points) f))))

byte_loop-lagrange :
    (points : List SharePoint) (offset : ℕ) (f : Byte → Byte)
    → IsDistinct (indices points)
    → HasValues offset f points
    → value_loop points offset 0 points zero_byte
      ≡ ok (lagrange (indices points) (indices points) f)
byte_loop-lagrange points offset f h hv =
    value_loop-lagrange points [] points offset 0 f zero_byte refl refl h hv ∙ ap ok (zero-⊕ _)

-- The values of polynomials at x, one for each byte of a secret.
unfoldable pub evaluate_all : List (List Byte) → Byte → List Byte
evaluate_all [] x = []
evaluate_all (q ∷ qs) x = eval_polynomial q x ∷ evaluate_all qs x

abbrev drop : ℕ → List Byte → List Byte
drop zero v = v
drop (suc n) [] = []
drop (suc n) (b ∷ v) = drop n v

drop_cons :
    (n : ℕ) (v r : List Byte) (b : Byte)
    → drop n v ≡ b ∷ r
    → (byte_at v n ≡ b) × (drop (suc n) v ≡ r)
unfolding byte_at
drop_cons zero [] r b h = cc
drop_cons zero (c ∷ v) r b h = (ground arith, ground arith)
drop_cons (suc n) [] r b h = cc
drop_cons (suc n) (c ∷ v) r b h = drop_cons n v r b h

-- From the offset on, the points carry the values of the polynomials.
abbrev CarryFrom : ℕ → List (List Byte) → List SharePoint → Type 0
CarryFrom offset qs ps = All (λ p. drop offset p.value ≡ evaluate_all qs p.index) ps

CarryFrom-cons :
    (offset : ℕ) (q : List Byte) (qs : List (List Byte)) (ps : List SharePoint)
    → CarryFrom offset (q ∷ qs) ps
    → HasValues offset (eval_polynomial q) ps × CarryFrom (suc offset) qs ps
unfolding evaluate_all
CarryFrom-cons offset q qs [] h = (tt, tt)
CarryFrom-cons offset q qs (p ∷ ps) (hp, h) =
    let (value, rest) =
      drop_cons offset p.value (evaluate_all qs p.index) (eval_polynomial q p.index) hp in
    let (values, rests) = CarryFrom-cons offset q qs ps h in ((value, values), (rest, rests))

abbrev pub ShorterThan : ℕ → List (List Byte) → Type 0
ShorterThan n qs = All (λ q. length q ≤ n) qs

length-indices : (ps : List SharePoint) → length (indices ps) ≡ length ps
length-indices [] = refl
length-indices (p ∷ ps) = ap suc (length-indices ps)

secret_loop-evaluate_all :
    (points : List SharePoint) (qs : List (List Byte)) (offset : ℕ)
    → IsDistinct (indices points)
    → ShorterThan (length points) qs
    → CarryFrom offset qs points
    → secret_loop points (length qs) offset ≡ ok (evaluate_all qs zero_byte)
unfolding secret_loop evaluate_all
secret_loop-evaluate_all points [] offset h short carry = refl
secret_loop-evaluate_all points (q ∷ qs) offset h (sq, short) carry =
    let (values, rest) = CarryFrom-cons offset q qs points carry in
    rw (byte_loop-lagrange points offset (eval_polynomial q) h values) (
      rw (secret_loop-evaluate_all points qs (suc offset) h short rest) (
        rw (lagrange-eval_polynomial (indices points) q h (omega (arith, length-indices points)))
          refl))

-- The points lie on the polynomials.
abbrev pub LieOn : List (List Byte) → List SharePoint → Type 0
LieOn qs ps = All (λ p. p.value ≡ evaluate_all qs p.index) ps

abbrev pub AreNonzero : List SharePoint → Type 0
AreNonzero ps = All (λ p. is_zero p.index ≡ false) ps

length-evaluate_all : (qs : List (List Byte)) (x : Byte) → length (evaluate_all qs x) ≡ length qs
unfolding evaluate_all
length-evaluate_all [] x = refl
length-evaluate_all (q ∷ qs) x = ap suc (length-evaluate_all qs x)

-- No index of the points was seen.
abbrev pub AreUnseen : List Byte → List SharePoint → Type 0
AreUnseen seen ps = All (λ p. contains_byte seen p.index ≡ false) ps

pub AreUnseen-cons :
    (x : Byte) (seen : List Byte) (ps : List SharePoint)
    → Misses x (indices ps)
    → AreUnseen seen ps
    → AreUnseen (x ∷ seen) ps
unfolding contains_byte
AreUnseen-cons x seen [] m u = tt
AreUnseen-cons x seen (p ∷ ps) (m, ms) (u, us) = (rw m u, AreUnseen-cons x seen ps ms us)

check_points-ok :
    (qs : List (List Byte)) (seen : List Byte) (ps : List SharePoint)
    → LieOn qs ps
    → AreNonzero ps
    → IsDistinct (indices ps)
    → AreUnseen seen ps
    → check_points (length qs) seen ps ≡ ok tt
unfolding check_points
check_points-ok qs seen [] on nz d u = refl
check_points-ok qs seen (p ∷ ps) (on, ons) (nz, nzs) (m, d) (u, us) =
    let size : length p.value ≡ length qs = ap length on ∙ length-evaluate_all qs p.index in
    rw (nz, u)
      (rw (size, (==_iff (length qs) (length qs)).1 refl)
        (check_points-ok qs (p.index ∷ seen) ps ons nzs d (AreUnseen-cons p.index seen ps m us)))

pub unseen_nil : (ps : List SharePoint) → AreUnseen [] ps
unfolding contains_byte
unseen_nil [] = tt
unseen_nil (p ∷ ps) = (refl, unseen_nil ps)

combine_shares_lem :
    (p : SharePoint) (ps : List SharePoint)
    → combine_shares (p ∷ ps)
      ≡ (check_points (length p.value) [] (p ∷ ps) >> secret_loop (p ∷ ps) (length p.value) 0)
unfolding combine_shares
combine_shares_lem p ps = refl

-- Points with distinct nonzero indexes on polynomials with at most as many coefficients as there
-- are points are combined to the values of the polynomials at zero.
pub combine_shares-evaluate_all :
    (qs : List (List Byte)) (p : SharePoint) (ps : List SharePoint)
    → LieOn qs (p ∷ ps)
    → AreNonzero (p ∷ ps)
    → IsDistinct (indices (p ∷ ps))
    → ShorterThan (length (p ∷ ps)) qs
    → combine_shares (p ∷ ps) ≡ ok (evaluate_all qs zero_byte)
combine_shares-evaluate_all qs p ps on nz d short =
    let size : length p.value ≡ length qs = ap length on.0 ∙ length-evaluate_all qs p.index in
    rw (combine_shares_lem p ps) (
      rw size (
        rw (check_points-ok qs [] (p ∷ ps) on nz d (unseen_nil (p ∷ ps)))
          (secret_loop-evaluate_all (p ∷ ps) qs 0 d short on)))
