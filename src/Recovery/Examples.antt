-- ===== src/Recovery/Examples.antt =====
-- The theorems of the recovery packages at a concrete package.
use mathlib.Core.List.{Memᴰ}
use openbao_attested_unseal.Prelude.{◌≡◌, refl, true, false, List, [], arith, take}
use openbao_attested_unseal.Prelude.Result.{Result, ok, err}
use openbao_attested_unseal.Prelude.Text.{codes, text_eq}
use openbao_attested_unseal.Prelude.Int.{pos}
use openbao_attested_unseal.Keyring.Key.{valid_identifier}
use openbao_attested_unseal.Recovery.Field.{Byte, bits, ◌⊕◌, gf_mul}
use openbao_attested_unseal.Recovery.Shares.{SharePoint, byte_of, split_secret, combine_shares}
use openbao_attested_unseal.Recovery.Shares.Split.{FillsReads, combine_shares-split_secret}
use openbao_attested_unseal.Recovery.Package.{
  Package, create, recover, encode_points, encode_share, validate_create_inputs, nat_of,
}
use openbao_attested_unseal.Recovery.Package.RoundTrip.{recover-create}
use openbao_attested_unseal.Recovery.Samples.{
  sample_codec, sample_codec_laws, sample_secret, sample_random,
}

abbrev sample_byte : Byte
sample_byte = bits false true false true false false true true

-- The points that Create makes of the sample secret, for a threshold of 2 and 3 shares.
abbrev points_of : Result (List SharePoint) → List SharePoint
points_of (ok ps) = ps
points_of (err e) = []

abbrev drawn : List SharePoint
drawn = points_of (split_secret sample_secret 2 3 sample_random)

fills : FillsReads 2 sample_random
fills offset bs h = ground arith

split : split_secret sample_secret 2 3 sample_random ≡ ok drawn
unfolding split_secret byte_of gf_mul ◌⊕◌
split = refl

abbrev chosen : List SharePoint
chosen = take 2 drawn

combine_shares-split_secret_example : combine_shares chosen ≡ ok sample_secret
unfolding split_secret byte_of gf_mul ◌⊕◌
combine_shares-split_secret_example =
    combine_shares-split_secret sample_secret 2 3 sample_random drawn chosen (omega arith)
      (omega arith) fills split (Memᴰ.head refl, (Memᴰ.tail (Memᴰ.head refl), tt))
      ((refl, tt), (tt, tt)) (omega arith)

abbrev package_of : Result Package → Package
package_of (ok p) = p
package_of (err e) = record {
  metadata = record {
    schema = 0;
    package_id = [];
    cluster_id = [];
    key_id = [];
    created_at = [];
    threshold = pos 0;
    shares = pos 0;
    kdf = [];
    wrapping_algorithm = [];
    secret_checksum = [];
    allowed_operations = [];
  };
  shares = [];
}

abbrev sample_package : Package
sample_package = package_of (
    create sample_codec (codes "pkg") (codes "lab") (codes "root") sample_secret (pos 2) (pos 3) 9
      sample_random)

created :
    create sample_codec
      (codes "pkg")
      (codes "lab")
      (codes "root")
      sample_secret
      (pos 2)
      (pos 3)
      9
      sample_random
    ≡ ok sample_package
unfolding create validate_create_inputs valid_identifier split_secret byte_of gf_mul ◌⊕◌
    encode_points encode_share nat_of
created = refl

recover-create_example :
    recover sample_codec sample_package.metadata (take 2 sample_package.shares) ≡ ok sample_secret
unfolding create validate_create_inputs valid_identifier split_secret byte_of gf_mul ◌⊕◌
    encode_points encode_share nat_of text_eq
recover-create_example =
    recover-create sample_codec sample_codec_laws (codes "pkg") (codes "lab") (codes "root")
      sample_secret (pos 2) (pos 3) 9 sample_random sample_package (take 2 sample_package.shares)
      fills created (Memᴰ.head refl, (Memᴰ.tail (Memᴰ.head refl), tt)) ((refl, tt), (tt, tt)) refl
