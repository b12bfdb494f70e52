-- ===== src/Recovery/Package.antt =====
-- internal/recovery/package.go: recovery packages, Create and Recover.
pub mod Encoding
pub mod RoundTrip
use openbao_attested_unseal.Prelude.{
  ℕ, zero, suc, ◌+◌, ◌-◌, Bool, true, false, not, ◌||◌, List, [], ◌∷◌, ◌++◌, ltb, ◌==◌, length,
  take, drop, if◌then◌else◌,
}
use openbao_attested_unseal.Prelude.Result.{
  Result, ok, err, invalid_package, invalid_share, threshold_not_met, ◌>>=◌, ◌>>◌, guard, wrap_err,
}
use openbao_attested_unseal.Prelude.Int.{ℤ, pos, pos_part, ltb_ℤ, leb_ℤ}
use openbao_attested_unseal.Prelude.Text.{Text, codes, text_eq, has_prefix}
use openbao_attested_unseal.Keyring.Key.{valid_identifier, algorithm_aes256gcm}
use openbao_attested_unseal.Recovery.Field.{Byte, bits}
use openbao_attested_unseal.Recovery.Shares.{
  SharePoint, byte_of, contains_byte, split_secret, combine_shares,
}
use openbao_attested_unseal.Recovery.Codec.{Codec, ShareEnvelope}

abbrev pub schema_version : ℕ
schema_version = 1

abbrev pub share_prefix : Text
share_prefix = codes "raus1."

abbrev pub checksum_prefix : Text
checksum_prefix = codes "sha256:"

abbrev pub kdf_none : Text
kdf_none = codes "none"

abbrev pub recover_enroll : Text
recover_enroll = codes "recover-enroll"

pub record PackageMetadata : Type 0 where
  pub schema : ℕ
  pub package_id : Text
  pub cluster_id : Text
  pub key_id : Text
  pub created_at : Text
  pub threshold : ℤ
  pub shares : ℤ
  pub kdf : Text
  pub wrapping_algorithm : Text
  pub secret_checksum : Text
  pub allowed_operations : List Text

pub record Package : Type 0 where
  pub metadata : PackageMetadata
  pub shares : List Text

abbrev pub weight_of : Bool → ℕ → ℕ
weight_of true n = n
weight_of false n = 0

-- int(b)
unfoldable pub nat_of : Byte → ℕ
nat_of (bits b7 b6 b5 b4 b3 b2 b1 b0) =
    weight_of b7 128
    + (weight_of b6 64
        + (weight_of b5 32
            + (weight_of b4 16
                + (weight_of b3 8 + (weight_of b2 4 + (weight_of b1 2 + weight_of b0 1))))))

-- threshold <= 0 || shares <= 0 || threshold > shares || shares > 255
abbrev pub bad_threshold : ℤ → ℤ → Bool
bad_threshold threshold shares =
    leb_ℤ threshold (pos 0)
    || (leb_ℤ shares (pos 0) || (ltb_ℤ shares threshold || ltb_ℤ (pos 255) shares))

-- slices.Contains
contains_text : List Text → Text → Bool
contains_text [] t = false
contains_text (u ∷ us) t = text_eq u t || contains_text us t

-- validateCreateInputs
unfoldable pub validate_create_inputs : Text → Text → Text → List Byte → ℤ → ℤ → Result (Unit {0})
validate_create_inputs package_id cluster_id key_id secret threshold shares = do
  guard (valid_identifier package_id) invalid_package
  guard (valid_identifier cluster_id) invalid_package
  guard (valid_identifier key_id) invalid_package
  guard (not (length secret == 0)) invalid_package
  guard (not (bad_threshold threshold shares)) invalid_package

module _ (c : Codec) where
  -- checksum
  abbrev pub checksum : List Byte → Text
  checksum secret = checksum_prefix ++ c.sha256_hex secret

  -- encodeShare
  unfoldable pub encode_share : ShareEnvelope → Result Text
  encode_share share = do
    encoded ← wrap_err (c.marshal_share share) invalid_package
    ok (share_prefix ++ c.raw_url_encode encoded)

  -- parseShare
  unfoldable pub parse_share : Text → Result ShareEnvelope
  parse_share encoded = do
    guard (has_prefix encoded share_prefix) invalid_share
    raw ← wrap_err (c.raw_url_decode (drop (length share_prefix) encoded)) invalid_share
    share ← wrap_err (c.unmarshal_share raw) invalid_share
    guard (share.schema == schema_version) invalid_share
    ok share

  -- PackageMetadata.Validate
  unfoldable pub validate_package : PackageMetadata → Result (Unit {0})
  unfolding contains_text
  validate_package m = do
    guard (m.schema == schema_version) invalid_package
    guard (valid_identifier m.package_id) invalid_package
    guard (valid_identifier m.cluster_id) invalid_package
    guard (valid_identifier m.key_id) invalid_package
    guard (not (bad_threshold m.threshold m.shares)) invalid_package
    guard (text_eq m.kdf kdf_none) invalid_package
    guard (text_eq m.wrapping_algorithm algorithm_aes256gcm) invalid_package
    guard (has_prefix m.secret_checksum checksum_prefix) invalid_package
    _ ← wrap_err (c.parse_time m.created_at) invalid_package
    guard (contains_text m.allowed_operations recover_enroll) invalid_package

  -- The loop of Create over the points.
  unfoldable pub encode_points : Text → List SharePoint → Result (List Text)
  encode_points package_id [] = ok []
  encode_points package_id (p ∷ ps) = do
    encoded ← encode_share (record {
      schema = schema_version;
      package_id = package_id;
      index = pos (nat_of p.index);
      value = c.std_encode p.value;
    })
    rest ← encode_points package_id ps
    ok (encoded ∷ rest)

  -- The metadata literal of Create.
  abbrev pub package_metadata : Text → Text → Text → List Byte → ℤ → ℤ → ℕ → PackageMetadata
  package_metadata package_id cluster_id key_id secret threshold shares now = record {
    schema = schema_version;
    package_id = package_id;
    cluster_id = cluster_id;
    key_id = key_id;
    created_at = c.format_time now;
    threshold = threshold;
    shares = shares;
    kdf = kdf_none;
    wrapping_algorithm = algorithm_aes256gcm;
    secret_checksum = checksum secret;
    allowed_operations = recover_enroll ∷ [];
  }

  -- Create
  unfoldable pub create :
      Text → Text → Text → List Byte → ℤ → ℤ → ℕ → (ℕ → Result (List Byte)) → Result Package
  create package_id cluster_id key_id secret threshold shares now random = do
    validate_create_inputs package_id cluster_id key_id secret threshold shares
    points ← split_secret secret (pos_part threshold) (pos_part shares) random
    encoded ← encode_points package_id points
    ok (record {
      metadata = package_metadata package_id cluster_id key_id secret threshold shares now;
      shares = encoded;
    })

  -- One round of the loop of Recover.
  unfoldable pub read_point : PackageMetadata → List Byte → Text → Result SharePoint
  read_point m seen encoded = do
    share ← parse_share encoded
    guard (text_eq share.package_id m.package_id) invalid_share
    guard (not (leb_ℤ share.index (pos 0) || ltb_ℤ m.shares share.index)) invalid_share
    guard (not (contains_byte seen (byte_of (pos_part share.index)))) invalid_share
    value ← wrap_err (c.std_decode share.value) invalid_share
    ok (record { index = byte_of (pos_part share.index); value = value })

  -- The loop of Recover over the encoded shares.
  unfoldable pub read_points : PackageMetadata → List Byte → List Text → Result (List SharePoint)
  read_points m seen [] = ok []
  read_points m seen (encoded ∷ rest) = do
    p ← read_point m seen encoded
    ps ← read_points m (p.index ∷ seen) rest
    ok (p ∷ ps)

  -- Recover
  unfoldable pub recover : PackageMetadata → List Text → Result (List Byte)
  recover m encoded_shares = do
    validate_package m
    guard (not (ltb_ℤ (pos (length encoded_shares)) m.threshold)) threshold_not_met
    points ← read_points m [] encoded_shares
    guard (not (ltb_ℤ (pos (length points)) m.threshold)) threshold_not_met
    secret ← combine_shares (take (pos_part m.threshold) points)
    guard (text_eq (checksum secret) m.secret_checksum) invalid_share
    ok secret
