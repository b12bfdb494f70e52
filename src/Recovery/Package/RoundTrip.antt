-- ===== src/Recovery/Package/RoundTrip.antt =====
-- Recover gives back the secret of Create.
use mathlib.Core.List.{Memᴰ}
use openbao_attested_unseal.Prelude.{
  ℕ, zero, suc, ◌≤◌, ◌<◌, ◌≡◌, refl, true, false, List, [], ◌∷◌, arith, length, All, take, All-take,
  length-take,
}
use openbao_attested_unseal.Prelude.Int.{ℤ, pos, negsuc, pos_part, ltb_ℤ}
use openbao_attested_unseal.Prelude.Result.{Result, ok}
use openbao_attested_unseal.Prelude.Text.{Text, text_eq, text_eq_refl, has_prefix}
use openbao_attested_unseal.Keyring.Key.{valid_identifier}
use openbao_attested_unseal.Recovery.Field.{Byte}
use openbao_attested_unseal.Recovery.Shares.{SharePoint, split_secret, combine_shares}
use openbao_attested_unseal.Recovery.Shares.Interpolate.{Misses, IsDistinct}
use openbao_attested_unseal.Recovery.Shares.Combine.{indices, unseen_nil}
use openbao_attested_unseal.Recovery.Shares.Split.{
  FillsReads, AreAmong, IsShare, split_secret-IsShare, combine_shares-split_secret,
}
use openbao_attested_unseal.Recovery.Codec.{Codec, CodecLaws}
use openbao_attested_unseal.Recovery.Package.{
  Package, bad_threshold, checksum, validate_package, validate_create_inputs, encode_points,
  package_metadata, create, read_points, recover,
}
use openbao_attested_unseal.Recovery.Package.Encoding.{
  AreDifferent, Encode-of_mem, length-Encode, IsDistinct-of_differ, read_points-Encode,
}

-- The threshold and the number of the shares are positive, in order and at most 255.
record InBounds (threshold shares : ℤ) : Type 0 where
  threshold_pos : threshold ≡ pos (pos_part threshold)
  shares_pos : shares ≡ pos (pos_part shares)
  positive : 0 < pos_part threshold
  le : pos_part threshold ≤ pos_part shares
  small : pos_part shares ≤ 255

bad_threshold-InBounds :
    (threshold shares : ℤ) → bad_threshold threshold shares ≡ false → InBounds threshold shares
bad_threshold-InBounds (pos t) (pos s) h = record {
  threshold_pos = refl;
  shares_pos = refl;
  positive = ground arith;
  le = ground arith;
  small = ground arith;
}
bad_threshold-InBounds (pos t) (negsuc s) h = absurd (ground arith)
bad_threshold-InBounds (negsuc t) s h = absurd (ground arith)

Misses-take :
    (x : Byte) (n : ℕ) (ps : List SharePoint)
    → Misses x (indices ps)
    → Misses x (indices (take n ps))
Misses-take x zero ps h = tt
Misses-take x (suc n) [] h = tt
Misses-take x (suc n) (p ∷ ps) (h, hs) = (h, Misses-take x n ps hs)

IsDistinct-take :
    (n : ℕ) (ps : List SharePoint) → IsDistinct (indices ps) → IsDistinct (indices (take n ps))
IsDistinct-take zero ps h = tt
IsDistinct-take (suc n) [] h = tt
IsDistinct-take (suc n) (p ∷ ps) (h, hs) = (Misses-take p.index n ps h, IsDistinct-take n ps hs)

enough_le :
    (threshold : ℤ) (n : ℕ)
    → threshold ≡ pos (pos_part threshold)
    → ltb_ℤ (pos n) threshold ≡ false
    → pos_part threshold ≤ n
enough_le (pos t) n e h = ground arith
enough_le (negsuc t) n e h = cc

shares_of_among :
    (qs : List (List Byte)) (shares : ℕ) (points : List SharePoint)
    → ((p : SharePoint) → Memᴰ p points → IsShare qs shares p)
    → (ps : List SharePoint) → AreAmong points ps
    → All (λ p. IsShare qs shares p) ps
shares_of_among qs shares points share [] among = tt
shares_of_among qs shares points share (p ∷ ps) (m, ms) =
    (share p m, shares_of_among qs shares points share ps ms)

module _ (c : Codec) (laws : CodecLaws c) where
  create-parts :
      (package_id cluster_id key_id : Text) (secret : List Byte) (threshold shares : ℤ) (now : ℕ)
      (random : ℕ → Result (List Byte)) (pkg : Package)
      → create c package_id cluster_id key_id secret threshold shares now random ≡ ok pkg
      → (points : List SharePoint) × (validate_create_inputs package_id cluster_id key_id secret
            threshold shares
          ≡ ok tt)
        × (split_secret secret (pos_part threshold) (pos_part shares) random ≡ ok points)
        × (encode_points c package_id points ≡ ok pkg.shares)
        × (package_metadata c package_id cluster_id key_id secret threshold shares now
            ≡ pkg.metadata)
  unfolding create
  create-parts package_id cluster_id key_id secret threshold shares now random pkg h = ground arith

  create_inputs-parts :
      (package_id cluster_id key_id : Text) (secret : List Byte) (threshold shares : ℤ)
      → validate_create_inputs package_id cluster_id key_id secret threshold shares ≡ ok tt
      → (valid_identifier package_id ≡ true)
        × (valid_identifier cluster_id ≡ true)
        × (valid_identifier key_id ≡ true)
        × (bad_threshold threshold shares ≡ false)
  unfolding validate_create_inputs
  create_inputs-parts package_id cluster_id key_id secret threshold shares h = ground arith

  -- The metadata of a package that Create makes is valid.
  validate_package-package_metadata :
      (package_id cluster_id key_id : Text) (secret : List Byte) (threshold shares : ℤ) (now : ℕ)
      → validate_create_inputs package_id cluster_id key_id secret threshold shares ≡ ok tt
      → validate_package c
          (package_metadata c package_id cluster_id key_id secret threshold shares now)
        ≡ ok tt
  unfolding validate_package text_eq has_prefix
  validate_package-package_metadata package_id cluster_id key_id secret threshold shares now h =
      let (p, cl, k, bounds) =
        create_inputs-parts package_id cluster_id key_id secret threshold shares h in
      let (n, parsed) = laws.parse_time-format now in
      rw p (rw cl (rw k (rw bounds (rw parsed refl))))

  recover_lem :
      (package_id cluster_id key_id : Text) (secret : List Byte) (threshold shares : ℤ) (now : ℕ)
      (chosen : List Text) (ps points : List SharePoint) (random : ℕ → Result (List Byte))
      → validate_create_inputs package_id cluster_id key_id secret threshold shares ≡ ok tt
      → InBounds threshold shares
      → FillsReads (pos_part threshold) random
      → split_secret secret (pos_part threshold) (pos_part shares) random ≡ ok points
      → AreAmong points ps
      → length ps ≡ length chosen
      → IsDistinct (indices ps)
      → read_points c
          (package_metadata c package_id cluster_id key_id secret threshold shares now)
          []
          chosen
        ≡ ok ps
      → ltb_ℤ (pos (length chosen)) threshold ≡ false
      → recover c
          (package_metadata c package_id cluster_id key_id secret threshold shares now)
          chosen
        ≡ ok secret
  unfolding recover
  recover_lem package_id cluster_id key_id secret threshold shares now chosen ps points random valid
        bounds fills drawn among len distinct read enough =
      let t = pos_part threshold in
      let te : t ≤ length ps =
        rw len (enough_le threshold (length chosen) bounds.threshold_pos enough) in
      let combined : combine_shares (take t ps) ≡ ok secret =
        combine_shares-split_secret secret t (pos_part shares) random points (take t ps)
          bounds.positive bounds.small fills drawn (All-take (λ p. Memᴰ p points) t ps among)
          (IsDistinct-take t ps distinct) (omega (arith, length-take t ps te)) in
      rw
        (validate_package-package_metadata package_id cluster_id key_id secret threshold shares now
          valid)
        (rw enough
          (rw read (rw len (rw enough (rw combined (rw (text_eq_refl (checksum c secret)) refl))))))

  -- The secret of Create is recovered from any different texts of the package, at least as many as
  -- the threshold; the reads of random coefficients fill them.
  pub recover-create :
      (package_id cluster_id key_id : Text) (secret : List Byte) (threshold shares : ℤ) (now : ℕ)
      (random : ℕ → Result (List Byte)) (pkg : Package) (chosen : List Text)
      → FillsReads (pos_part threshold) random
      → create c package_id cluster_id key_id secret threshold shares now random ≡ ok pkg
      → All (λ t. Memᴰ t pkg.shares) chosen
      → AreDifferent chosen
      → ltb_ℤ (pos (length chosen)) threshold ≡ false
      → recover c pkg.metadata chosen ≡ ok secret
  recover-create package_id cluster_id key_id secret threshold shares now random pkg chosen fills h
        mem diff enough =
      let (points, valid, drawn, encoded, meta) =
        create-parts package_id cluster_id key_id secret threshold shares now random pkg h in
      let (_, _, _, bounded) =
        create_inputs-parts package_id cluster_id key_id secret threshold shares valid in
      let bounds = bad_threshold-InBounds threshold shares bounded in
      let m = package_metadata c package_id cluster_id key_id secret threshold shares now in
      let (ps, among, encodes) = Encode-of_mem c laws m points pkg.shares chosen encoded mem in
      let (polys, share) =
        split_secret-IsShare secret (pos_part threshold) (pos_part shares) random points
          bounds.positive fills drawn in
      rw (← meta) (
        recover_lem package_id cluster_id key_id secret threshold shares now chosen ps points random
          valid bounds fills drawn among (length-Encode c laws m ps chosen encodes)
          (IsDistinct-of_differ c laws m polys (pos_part shares) bounds.small bounds.shares_pos ps
            chosen (shares_of_among polys (pos_part shares) points share ps among) encodes diff)
          (read_points-Encode c laws m polys (pos_part shares) bounds.small bounds.shares_pos [] ps
            chosen (shares_of_among polys (pos_part shares) points share ps among) encodes
            (IsDistinct-of_differ c laws m polys (pos_part shares) bounds.small bounds.shares_pos ps
              chosen (shares_of_among polys (pos_part shares) points share ps among) encodes diff)
            (unseen_nil ps))
          enough)
