-- ===== src/Recovery/Shares/Split.antt =====
-- splitSecret makes points on polynomials whose values at zero are the bytes of the secret.
use mathlib.Core.Path.{subst}
use mathlib.Core.List.{Memᴰ, append_assoc, append-nil}
use openbao_attested_unseal.Prelude.{
  ℕ, zero, suc, ◌+◌, ◌≤◌, ◌<◌, ◌≡◌, refl, ap, ◌∙◌, false, List, [], ◌∷◌, ◌++◌, arith, length, All,
  inl, inr,
}
use openbao_attested_unseal.Prelude.Result.{Result, ok, err, Result-cases}
use openbao_attested_unseal.Recovery.Field.{Byte, zero_byte, is_zero, ◌⊕◌}
use openbao_attested_unseal.Recovery.Field.Xor.{zero-⊕}
use openbao_attested_unseal.Recovery.Field.Product.{gf_mul_comm, gf_mul-zero}
use openbao_attested_unseal.Recovery.Shares.{
  SharePoint, byte_of, eval_polynomial, blank_points, write_points, read_coefficients, split_loop,
  split_secret, combine_shares,
}
use openbao_attested_unseal.Recovery.Shares.Combine.{
  evaluate_all, ShorterThan, LieOn, AreNonzero, indices, combine_shares-evaluate_all,
}
use openbao_attested_unseal.Recovery.Shares.Interpolate.{IsDistinct}

-- A read that succeeds fills the coefficients above the constant one (io.ReadFull).
abbrev pub FillsReads : ℕ → (ℕ → Result (List Byte)) → Type 0
FillsReads threshold random =
    (offset : ℕ) (bs : List Byte) → random offset ≡ ok bs → length bs + 1 ≡ threshold

-- The points with the values of the polynomials behind what they hold.
extend : List (List Byte) → List SharePoint → List SharePoint
extend qs [] = []
extend qs (p ∷ ps) =
    record { index = p.index; value = p.value ++ evaluate_all qs p.index } ∷ extend qs ps

extend-nil : (ps : List SharePoint) → extend [] ps ≡ ps
unfolding extend evaluate_all
extend-nil [] = refl
extend-nil (p ∷ ps) =
    λ i. record { index = p.index; value = append-nil p.value i } ∷ extend-nil ps i

extend-write_points :
    (q : List Byte) (qs : List (List Byte)) (ps : List SharePoint)
    → extend qs (write_points q ps) ≡ extend (q ∷ qs) ps
unfolding extend write_points evaluate_all
extend-write_points q qs [] = refl
extend-write_points q qs (p ∷ ps) = λ i.
    record {
      index = p.index;
      value = append_assoc p.value (eval_polynomial q p.index ∷ []) (evaluate_all qs p.index) i;
    }
    ∷ extend-write_points q qs ps i

constant_at_zero : (b : Byte) (above : List Byte) → eval_polynomial (b ∷ above) zero_byte ≡ b
unfolding eval_polynomial
constant_at_zero b above =
    ap (λ u. u ⊕ b) (gf_mul_comm (eval_polynomial above zero_byte) zero_byte ∙ gf_mul-zero _)
    ∙ zero-⊕ b

read_coefficients-le :
    (threshold : ℕ) (outcome : Result (List Byte)) (above : List Byte)
    → 0 < threshold
    → ((bs : List Byte) → outcome ≡ ok bs → length bs + 1 ≡ threshold)
    → read_coefficients threshold outcome ≡ ok above
    → length above + 1 ≤ threshold
unfolding read_coefficients
read_coefficients-le threshold (ok bs) above pos fills h = ground (arith, fills bs refl)
read_coefficients-le threshold (err e) above pos fills h = ground arith

-- What the loop returns lies on polynomials through the secret.
record Drawn (threshold : ℕ) (secret : List Byte) (points out : List SharePoint) : Type 0 where
  polynomials : List (List Byte)
  through : evaluate_all polynomials zero_byte ≡ secret
  short : ShorterThan threshold polynomials
  drawn : out ≡ extend polynomials points

-- One more polynomial through one more byte.
Drawn-cons :
    (threshold : ℕ) (b : Byte) (above secret : List Byte) (points out : List SharePoint)
    → length above + 1 ≤ threshold
    → Drawn threshold secret (write_points (b ∷ above) points) out
    → Drawn threshold (b ∷ secret) points out
unfolding evaluate_all
Drawn-cons threshold b above secret points out le rest = record {
  polynomials = (b ∷ above) ∷ rest.polynomials;
  through = rw (constant_at_zero b above, rest.through) refl;
  short = (omega arith, rest.short);
  drawn = rest.drawn ∙ extend-write_points (b ∷ above) rest.polynomials points;
}

module _ (threshold : ℕ) (random : ℕ → Result (List Byte)) (pos : 0 < threshold)
    (fills : FillsReads threshold random) where
  split_loop-Drawn :
      (offset : ℕ) (secret : List Byte) (points out : List SharePoint)
      → split_loop threshold random offset secret points ≡ ok out
      → Drawn threshold secret points out
  unfolding split_loop
  split_loop-Drawn offset [] points out h = record {
    polynomials = [];
    through = unfold evaluate_all in refl;
    short = tt;
    drawn = ground (arith, extend-nil points);
  }
  split_loop-Drawn offset (b ∷ secret) points out h =
      elim (Result-cases (read_coefficients threshold (random offset))) [
        | inr (e, failed) ↦ cc (rw failed at h)
        | inl (above, read) ↦
            Drawn-cons threshold b above secret points out
              (read_coefficients-le threshold (random offset) above pos (fills offset) read)
              (split_loop-Drawn (suc offset) secret (write_points (b ∷ above) points) out
                (rw read at h))
      ]

  split_secret-Drawn :
      (secret : List Byte) (shares : ℕ) (out : List SharePoint)
      → split_secret secret threshold shares random ≡ ok out
      → Drawn threshold secret (blank_points shares 1) out
  split_secret-Drawn secret shares out h =
      split_loop-Drawn 0 secret (blank_points shares 1) out (unfold split_secret in h)

-- A byte between 1 and 255 is not zero.
byte_of_nonzero : (n : ℕ) → 0 < n → n < 256 → is_zero (byte_of n) ≡ false
unfolding byte_of
byte_of_nonzero n pos lt = ground arith

-- A point of a split into at most `shares` points: it lies on the polynomials, and its index is
-- the byte of its place.
pub record IsShare (qs : List (List Byte)) (shares : ℕ) (p : SharePoint) : Type 0 where
  pub on : p.value ≡ evaluate_all qs p.index
  pub place : ℕ
  pub at_place : p.index ≡ byte_of place
  pub positive : 0 < place
  pub within : place ≤ shares

mem_blank :
    (qs : List (List Byte)) (shares count first : ℕ) (p : SharePoint)
    → 0 < first
    → first + count ≤ shares + 1
    → Memᴰ p (extend qs (blank_points count first))
    → IsShare qs shares p
unfolding extend blank_points
mem_blank qs shares zero first p pos le m = elim m [ ]
mem_blank qs shares (suc count) first p pos le (Memᴰ.head e) =
    rw e
      (record { on = refl; place = first; at_place = refl; positive = pos; within = omega arith })
mem_blank qs shares (suc count) first p pos le (Memᴰ.tail m) =
    mem_blank qs shares count (suc first) p (omega arith) (omega arith) m

pub IsShare-nonzero :
    (qs : List (List Byte)) (shares : ℕ) (p : SharePoint)
    → shares < 256
    → IsShare qs shares p
    → is_zero p.index ≡ false
IsShare-nonzero qs shares p lt s = rw s.at_place (byte_of_nonzero s.place s.positive (omega arith))

-- Every one of the chosen points is among the points.
abbrev pub AreAmong : List SharePoint → List SharePoint → Type 0
AreAmong points chosen = All (λ p. Memᴰ p points) chosen

chosen_lie :
    (qs : List (List Byte)) (shares : ℕ) (chosen : List SharePoint)
    → shares < 256
    → AreAmong (extend qs (blank_points shares 1)) chosen
    → LieOn qs chosen × AreNonzero chosen
chosen_lie qs shares [] lt h = (tt, tt)
chosen_lie qs shares (p ∷ ps) lt (m, ms) =
    let share = mem_blank qs shares shares 1 p (omega arith) (omega arith) m in
    let (ons, nzs) = chosen_lie qs shares ps lt ms in
    ((share.on, ons), (IsShare-nonzero qs shares p lt share, nzs))

ShorterThan-le : (m n : ℕ) (qs : List (List Byte)) → m ≤ n → ShorterThan m qs → ShorterThan n qs
ShorterThan-le m n [] le h = tt
ShorterThan-le m n (q ∷ qs) le (h, hs) = (omega arith, ShorterThan-le m n qs le hs)

-- Any points of a split, of different indexes and at least as many as the threshold, are combined
-- to the secret; the threshold is positive, there are at most 255 shares, and each read of random
-- coefficients fills them.
pub combine_shares-split_secret :
    (secret : List Byte) (threshold shares : ℕ) (random : ℕ → Result (List Byte))
    (out chosen : List SharePoint)
    → 0 < threshold
    → shares ≤ 255
    → FillsReads threshold random
    → split_secret secret threshold shares random ≡ ok out
    → AreAmong out chosen
    → IsDistinct (indices chosen)
    → threshold ≤ length chosen
    → combine_shares chosen ≡ ok secret
combine_shares-split_secret secret threshold shares random out [] pos le fills h m d enough =
    absurd (omega arith)
combine_shares-split_secret secret threshold shares random out (p ∷ ps) pos le fills h m d enough =
    let drawing = split_secret-Drawn threshold random pos fills secret shares out h in
    let qs = drawing.polynomials in
    let (on, nz) =
      chosen_lie qs shares (p ∷ ps) (omega arith)
        (subst (λ u. AreAmong u (p ∷ ps)) drawing.drawn m) in
    combine_shares-evaluate_all qs p ps on nz d
      (ShorterThan-le threshold (length (p ∷ ps)) qs enough drawing.short)
    ∙ ap ok drawing.through

-- The points of a split are shares of polynomials through the secret.
pub split_secret-IsShare :
    (secret : List Byte) (threshold shares : ℕ) (random : ℕ → Result (List Byte))
    (out : List SharePoint)
    → 0 < threshold
    → FillsReads threshold random
    → split_secret secret threshold shares random ≡ ok out
    → (qs : List (List Byte)) × ((p : SharePoint) → Memᴰ p out → IsShare qs shares p)
split_secret-IsShare secret threshold shares random out pos fills h =
    let drawing = split_secret-Drawn threshold random pos fills secret shares out h in
    (
      drawing.polynomials,
      λ p m.
          mem_blank drawing.polynomials shares shares 1 p (omega arith) (omega arith)
            (subst (λ u. Memᴰ p u) drawing.drawn m),
    )
