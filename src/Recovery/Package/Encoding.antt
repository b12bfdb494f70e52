-- ===== src/Recovery/Package/Encoding.antt =====
-- The texts of a package are read back as the points that they encode.
use mathlib.Core.Path.{subst}
use mathlib.Core.List.{Memᴰ}
use openbao_attested_unseal.Prelude.{
  ℕ, suc, ◌*◌, ◌/◌, ◌%◌, ◌≤◌, ◌<◌, ◌≡◌, refl, ap, sym, ◌∙◌, true, false, not, ◌||◌, List, [], ◌∷◌,
  ◌++◌, arith, length, All, inl, inr, Bool-cases, ◌==◌,
}
use openbao_attested_unseal.Prelude.Int.{pos, ltb_ℤ, leb_ℤ}
use openbao_attested_unseal.Prelude.Result.{ok}
use openbao_attested_unseal.Prelude.Text.{
  Text, text_eq, text_eq_refl, text_eq_iff, has_prefix-append,
}
use openbao_attested_unseal.Recovery.Field.{Byte, same_byte}
use openbao_attested_unseal.Recovery.Field.Every.{same_byte_sound}
use openbao_attested_unseal.Recovery.Shares.{SharePoint, byte_of, contains_byte}
use openbao_attested_unseal.Recovery.Shares.Interpolate.{Misses, IsDistinct}
use openbao_attested_unseal.Recovery.Shares.Combine.{
  indices, evaluate_all, AreUnseen, AreUnseen-cons,
}
use openbao_attested_unseal.Recovery.Shares.Split.{AreAmong, IsShare}
use openbao_attested_unseal.Recovery.Codec.{Codec, CodecLaws, ShareEnvelope}
use openbao_attested_unseal.Recovery.Package.{
  PackageMetadata, schema_version, share_prefix, nat_of, weight_of, encode_share, parse_share,
  encode_points, read_point, read_points,
}

weight_bit : (m w : ℕ) → weight_of (m % 2 == 1) w ≡ m % 2 * w
weight_bit m w = elim (Bool-cases (m % 2 == 1)) [
  | inl odd ↦ rw odd (let e : m % 2 ≡ 1 = ground arith in rw e (omega arith))
  | inr even ↦ rw even (let e : m % 2 ≡ 0 = ground arith in rw e (omega arith))
]

nat_of-byte_of : (n : ℕ) → n < 256 → nat_of (byte_of n) ≡ n
unfolding nat_of byte_of
nat_of-byte_of n h = omega (
  arith,
  weight_bit (n / 128) 128,
  weight_bit (n / 64) 64,
  weight_bit (n / 32) 32,
  weight_bit (n / 16) 16,
  weight_bit (n / 8) 8,
  weight_bit (n / 4) 4,
  weight_bit (n / 2) 2,
  weight_bit n 1,
)

index_in_range :
    (shares n : ℕ)
    → 0 < n
    → n ≤ shares
    → not (leb_ℤ (pos n) (pos 0) || ltb_ℤ (pos shares) (pos n)) ≡ true
index_in_range shares n h le = ground arith

-- Different texts, one by one.
abbrev pub AreDifferent : List Text → Type 0
AreDifferent [] = Unit
AreDifferent (t ∷ ts) = All (λ u. text_eq t u ≡ false) ts × AreDifferent ts

same_index :
    (qs : List (List Byte)) (shares : ℕ) (p q : SharePoint)
    → IsShare qs shares p
    → IsShare qs shares q
    → p.index ≡ q.index
    → p ≡ q
same_index qs shares p q sp sq e =
    λ i. record { index = e i; value = (sp.on ∙ ap (evaluate_all qs) e ∙ sym sq.on) i }

module _ (c : Codec) (laws : CodecLaws c) (m : PackageMetadata) where
  abbrev pub envelope : SharePoint → ShareEnvelope
  envelope p = record {
    schema = schema_version;
    package_id = m.package_id;
    index = pos (nat_of p.index);
    value = c.std_encode p.value;
  }

  -- The texts encode the points, in their order.
  abbrev pub Encode : List SharePoint → List Text → Type 0
  Encode [] [] = Unit
  Encode [] (t ∷ ts) = ⊥
  Encode (p ∷ ps) [] = ⊥
  Encode (p ∷ ps) (t ∷ ts) = (encode_share c (envelope p) ≡ ok t) × Encode ps ts

  parse_share-encode_share :
      (e : ShareEnvelope) (t : Text)
      → e.schema ≡ schema_version
      → encode_share c e ≡ ok t
      → parse_share c t ≡ ok e
  unfolding encode_share parse_share
  parse_share-encode_share e t v h =
      let (raw, em) = laws.marshal_total e in
      let et : share_prefix ++ c.raw_url_encode raw ≡ t = ground (arith, em) in
      rw (← et) (
        rw (has_prefix-append share_prefix (c.raw_url_encode raw))
          (rw (laws.raw_url_decode-encode raw, laws.unmarshal-marshal e raw em) (ground arith)))

  encode_points-parts :
      (p : SharePoint) (ps : List SharePoint) (ts : List Text)
      → encode_points c m.package_id (p ∷ ps) ≡ ok ts
      → (first : Text) × (rest : List Text) × (encode_share c (envelope p) ≡ ok first)
        × (encode_points c m.package_id ps ≡ ok rest)
        × (first ∷ rest ≡ ts)
  unfolding encode_points
  encode_points-parts p ps ts h = ground arith

  first_or_later :
      (p : SharePoint) (ps : List SharePoint) (t first : Text) (rest : List Text)
      → encode_share c (envelope p) ≡ ok first
      → (Memᴰ t rest → (q : SharePoint) × Memᴰ q ps × (encode_share c (envelope q) ≡ ok t))
      → Memᴰ t (first ∷ rest)
      → (q : SharePoint) × Memᴰ q (p ∷ ps) × (encode_share c (envelope q) ≡ ok t)
  first_or_later p ps t first rest ef later (Memᴰ.head e) = (p, Memᴰ.head refl, ef ∙ ap ok (sym e))
  first_or_later p ps t first rest ef later (Memᴰ.tail n) =
      let (q, mq, eq) = later n in (q, Memᴰ.tail mq, eq)

  encode_points-nil : (ts : List Text) → encode_points c m.package_id [] ≡ ok ts → [] ≡ ts
  unfolding encode_points
  encode_points-nil ts h = ground arith

  not_in_nil : (t : Text) → Memᴰ t [] → ⊥
  not_in_nil t n = elim n [ ]

  -- A text of a package encodes a point.
  pub encode_points-mem :
      (ps : List SharePoint) (ts : List Text) (t : Text)
      → encode_points c m.package_id ps ≡ ok ts
      → Memᴰ t ts
      → (p : SharePoint) × Memᴰ p ps × (encode_share c (envelope p) ≡ ok t)
  encode_points-mem [] ts t h mem =
      absurd (not_in_nil t (subst (λ u. Memᴰ t u) (sym (encode_points-nil ts h)) mem))
  encode_points-mem (p ∷ ps) ts t h mem =
      let (first, rest, ef, er, e) = encode_points-parts p ps ts h in
      first_or_later p ps t first rest ef (λ n. encode_points-mem ps rest t er n)
        (subst (λ u. Memᴰ t u) (sym e) mem)

  pub Encode-of_mem :
      (ps : List SharePoint) (ts chosen : List Text)
      → encode_points c m.package_id ps ≡ ok ts
      → All (λ t. Memᴰ t ts) chosen
      → (qs : List SharePoint) × AreAmong ps qs × Encode qs chosen
  Encode-of_mem ps ts [] h all = ([], tt, tt)
  Encode-of_mem ps ts (t ∷ chosen) h (mem, all) =
      let (p, mp, ep) = encode_points-mem ps ts t h mem in
      let (qs, mq, eq) = Encode-of_mem ps ts chosen h all in (p ∷ qs, (mp, mq), (ep, eq))

  module _ (polys : List (List Byte)) (shares : ℕ) (small : shares ≤ 255)
      (count : m.shares ≡ pos shares) where
    abbrev pub AreShares : List SharePoint → Type 0
    AreShares ps = All (λ p. IsShare polys shares p) ps

    Misses-of_differ :
        (p : SharePoint) (t : Text) (ps : List SharePoint) (ts : List Text)
        → IsShare polys shares p
        → encode_share c (envelope p) ≡ ok t
        → AreShares ps
        → Encode ps ts
        → All (λ u. text_eq t u ≡ false) ts
        → Misses p.index (indices ps)
    Misses-of_differ p t [] ts sp ep ss es d = tt
    Misses-of_differ p t (q ∷ ps) [] sp ep ss es d = absurd es
    Misses-of_differ p t (q ∷ ps) (u ∷ ts) sp ep (sq, ss) (eq, es) (d, ds) = (
      elim (Bool-cases (same_byte p.index q.index)) [
        | inr differs ↦ differs
        | inl same ↦
            let one : p ≡ q =
              same_index polys shares p q sp sq (same_byte_sound p.index q.index same) in
            let texts : t ≡ u =
              ground (arith, sym ep ∙ ap (λ r. encode_share c (envelope r)) one ∙ eq) in
            cc (sym d ∙ (text_eq_iff t u).1 texts)
      ],
      Misses-of_differ p t ps ts sp ep ss es ds,
    )

    pub IsDistinct-of_differ :
        (ps : List SharePoint) (ts : List Text)
        → AreShares ps
        → Encode ps ts
        → AreDifferent ts
        → IsDistinct (indices ps)
    IsDistinct-of_differ [] ts ss es d = tt
    IsDistinct-of_differ (p ∷ ps) [] ss es d = absurd es
    IsDistinct-of_differ (p ∷ ps) (t ∷ ts) (sp, ss) (ep, es) (d, ds) =
        (Misses-of_differ p t ps ts sp ep ss es d, IsDistinct-of_differ ps ts ss es ds)

    read_point-envelope :
        (p : SharePoint) (t : Text) (seen : List Byte)
        → IsShare polys shares p
        → encode_share c (envelope p) ≡ ok t
        → contains_byte seen p.index ≡ false
        → read_point c m seen t ≡ ok p
    unfolding read_point
    read_point-envelope p t seen sp ep unseen =
        let place : nat_of p.index ≡ sp.place =
          ap nat_of sp.at_place ∙ nat_of-byte_of sp.place (omega arith) in
        let back : byte_of (nat_of p.index) ≡ p.index = ap byte_of place ∙ sym sp.at_place in
        rw (parse_share-encode_share (envelope p) t refl ep) (
          rw (text_eq_refl m.package_id) (
            rw count (
              rw (index_in_range shares (nat_of p.index) (omega arith) (omega arith))
                (rw back (rw unseen (rw (laws.std_decode-encode p.value) refl))))))

    pub read_points-Encode :
        (seen : List Byte) (ps : List SharePoint) (ts : List Text)
        → AreShares ps
        → Encode ps ts
        → IsDistinct (indices ps)
        → AreUnseen seen ps
        → read_points c m seen ts ≡ ok ps
    unfolding read_points
    read_points-Encode seen [] [] ss es d u = refl
    read_points-Encode seen [] (t ∷ ts) ss es d u = absurd es
    read_points-Encode seen (p ∷ ps) [] ss es d u = absurd es
    read_points-Encode seen (p ∷ ps) (t ∷ ts) (sp, ss) (ep, es) (dp, d) (up, us) =
        rw (read_point-envelope p t seen sp ep up) (
          rw
            (read_points-Encode (p.index ∷ seen) ps ts ss es d
              (AreUnseen-cons p.index seen ps dp us))
            refl)

  pub length-Encode : (ps : List SharePoint) (ts : List Text) → Encode ps ts → length ps ≡ length ts
  length-Encode [] [] h = refl
  length-Encode [] (t ∷ ts) h = absurd h
  length-Encode (p ∷ ps) [] h = absurd h
  length-Encode (p ∷ ps) (t ∷ ts) h = ap suc (length-Encode ps ts h.1)
