-- ===== src/Keyring/Key.antt =====
-- internal/keyring/key.go: identifiers, key references and key versions. `cloneBytes` and `clone`
-- copy a value, so they are the identity here.
pub mod RoundTrip
use openbao_attested_unseal.Prelude.{
  ℕ, ◌-◌, ◌^◌, Bool, true, false, ◌&&◌, ◌||◌, Option, none, some, List, [], ◌∷◌, ◌++◌, leb, ◌==◌,
  length, if◌then◌else◌,
}
use openbao_attested_unseal.Prelude.Result.{Result, ok, err, invalid_metadata, ◌>>=◌, ◌>>◌, guard}
use openbao_attested_unseal.Prelude.Text.{Text, codes, text_eq, has_prefix}
use openbao_attested_unseal.Prelude.Decimal.{format_uint, parse_uint}
use openbao_attested_unseal.Prelude.Split.{split}

abbrev pub key_size : ℕ
key_size = 32

abbrev pub nonce_size : ℕ
nonce_size = 12

abbrev pub purpose : Text
purpose = codes "openbao-auto-unseal"

abbrev pub blob_format : Text
blob_format = codes "openbao-attested-unseal.v1.aes256gcm"

abbrev pub algorithm_aes256gcm : Text
algorithm_aes256gcm = codes "AES-256-GCM"

abbrev pub blob_mechanism_aes256gcm : ℕ
blob_mechanism_aes256gcm = 1

-- [A-Za-z0-9]
is_alnum : ℕ → Bool
is_alnum c = leb b'A' c && leb c b'Z' || (leb b'a' c && leb c b'z' || (leb b'0' c && leb c b'9'))

-- [A-Za-z0-9._-]
is_identifier_byte : ℕ → Bool
unfolding is_alnum
is_identifier_byte c = is_alnum c || (c == b'.' || (c == b'_' || c == b'-'))

all_identifier_bytes : Text → Bool
all_identifier_bytes [] = true
all_identifier_bytes (c ∷ s) = is_identifier_byte c && all_identifier_bytes s

-- ^[A-Za-z0-9][A-Za-z0-9._-]{0,127}$
unfoldable pub valid_identifier : Text → Bool
unfolding is_identifier_byte all_identifier_bytes
valid_identifier [] = false
valid_identifier (c ∷ s) = is_alnum c && (leb (length s) 127 && all_identifier_bytes s)

unfoldable pub validate_identifier : Text → Result (Unit {0})
validate_identifier raw = guard (valid_identifier raw) invalid_metadata

-- A `Status` is a Go string: any other text is none of the four constants.
pub data Status : Type 0 where
  pending active decrypt_only retired : Status
  unrecognized : Text → Status

pub record KeyRef : Type 0 where
  pub cluster_id : Text
  pub key_id : Text
  pub version : ℕ  -- uint32

abbrev pub version_limit : ℕ
version_limit = 2 ^ 32 - 1

-- KeyRef.Validate
unfoldable pub validate_ref : KeyRef → Result (Unit {0})
validate_ref r = do
  guard (valid_identifier r.cluster_id) invalid_metadata
  guard (valid_identifier r.key_id) invalid_metadata
  if r.version == 0 then err invalid_metadata else ok tt

-- KeyRef.String
unfoldable pub format_ref : KeyRef → Text
format_ref r = r.cluster_id ++ (b'/' ∷ (r.key_id ++ (b'/' ∷ b'v' ∷ format_uint r.version)))

-- The version of a third part: strings.HasPrefix(part, "v"), TrimPrefix and ParseUint.
parse_version : Text → Result ℕ
parse_version [] = err invalid_metadata
parse_version (c ∷ s) =
    if c == b'v'
    then elim (parse_uint version_limit s) [ none ↦ err invalid_metadata | some v ↦ ok v ]
    else err invalid_metadata

parse_parts : List Text → Result KeyRef
unfolding parse_version
parse_parts (cluster ∷ key ∷ version ∷ []) = do
  v ← parse_version version
  let ref : KeyRef = record { cluster_id = cluster; key_id = key; version = v }
  validate_ref ref
  ok ref
parse_parts _ = err invalid_metadata

-- ParseKeyRef
unfoldable pub parse_key_ref : Text → Result KeyRef
unfolding parse_parts
parse_key_ref raw = parse_parts (split b'/' raw)

pub record KeyVersion : Type 0 where
  pub ref : KeyRef
  pub status : Status
  pub algorithm : Text
  pub policy_id : Text
  pub material : Text

-- The `switch` over the known statuses.
abbrev pub is_known : Status → Bool
is_known (unrecognized _) = false
is_known _ = true

abbrev pub is_active : Status → Bool
is_active active = true
is_active _ = false

-- KeyVersion.Validate
unfoldable pub validate_version : KeyVersion → Result (Unit {0})
validate_version v = do
  validate_ref v.ref
  guard (is_known v.status) invalid_metadata
  guard (text_eq v.algorithm algorithm_aes256gcm) invalid_metadata
  guard (valid_identifier v.policy_id) invalid_metadata
  guard (length v.material == key_size) invalid_metadata

-- KeyVersion.canEncrypt
abbrev pub can_encrypt : KeyVersion → Bool
can_encrypt v = is_active v.status

abbrev pub decrypts : Status → Bool
decrypts active = true
decrypts decrypt_only = true
decrypts _ = false

-- KeyVersion.canDecrypt
abbrev pub can_decrypt : KeyVersion → Bool
can_decrypt v = decrypts v.status
