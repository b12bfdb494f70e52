-- ===== src/Recovery/Codec.antt =====
-- What internal/recovery takes from packages encoding/json, encoding/base64, crypto/sha256 and time,
-- as a parameter of the model, with the documented behaviour that the proofs rely on. A time is the
-- number of its nanoseconds.
use openbao_attested_unseal.Prelude.{ℕ, ◌≡◌, List}
use openbao_attested_unseal.Prelude.Result.{Result, ok}
use openbao_attested_unseal.Prelude.Int.{ℤ}
use openbao_attested_unseal.Prelude.Text.{Text}
use openbao_attested_unseal.Recovery.Field.{Byte}

-- shareEnvelope
pub record ShareEnvelope : Type 0 where
  pub schema : ℕ
  pub package_id : Text
  pub index : ℤ
  pub value : Text

pub record Codec : Type 0 where
  -- json.Marshal and json.Unmarshal of a share envelope
  pub marshal_share : ShareEnvelope → Result Text
  pub unmarshal_share : Text → Result ShareEnvelope
  -- base64.RawURLEncoding
  pub raw_url_encode : Text → Text
  pub raw_url_decode : Text → Result Text
  -- base64.StdEncoding
  pub std_encode : List Byte → Text
  pub std_decode : Text → Result (List Byte)
  -- hex.EncodeToString of sha256.Sum256
  pub sha256_hex : List Byte → Text
  -- UTC().Format and Parse at time.RFC3339Nano
  pub format_time : ℕ → Text
  pub parse_time : Text → Result ℕ

pub record CodecLaws (c : Codec) : Type 0 where
  pub marshal_total : (e : ShareEnvelope) → (t : Text) × (c.marshal_share e ≡ ok t)
  pub unmarshal-marshal :
      (e : ShareEnvelope) (t : Text) → c.marshal_share e ≡ ok t → c.unmarshal_share t ≡ ok e
  pub raw_url_decode-encode : (t : Text) → c.raw_url_decode (c.raw_url_encode t) ≡ ok t
  pub std_decode-encode : (v : List Byte) → c.std_decode (c.std_encode v) ≡ ok v
  pub parse_time-format : (now : ℕ) → (n : ℕ) × (c.parse_time (c.format_time now) ≡ ok n)
