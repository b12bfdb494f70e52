-- ===== src/Recovery/Samples.antt =====
-- A concrete codec, and a sample package, for the tests.
use openbao_attested_unseal.Prelude.{
  ℕ, ◌≡◌, refl, sym, ap, ◌∙◌, Bool, true, false, List, [], ◌∷◌, ◌++◌, ◌==◌, if◌then◌else◌, length,
  take, drop, drop-append,
}
use openbao_attested_unseal.Prelude.Result.{Result, ok, err, other}
use openbao_attested_unseal.Prelude.Int.{ℤ, pos, negsuc}
use openbao_attested_unseal.Prelude.Text.{Text}
use openbao_attested_unseal.Recovery.Field.{Byte, bits}
use openbao_attested_unseal.Recovery.Codec.{Codec, CodecLaws, ShareEnvelope}

abbrev bit_code : Bool → ℕ
bit_code true = 1
bit_code false = 0

-- A byte as the texts of its bits.
abbrev encode_bits : List Byte → Text
encode_bits [] = []
encode_bits (bits a b c d e f g h ∷ rest) =
    bit_code a
    ∷ bit_code b
    ∷ bit_code c
    ∷ bit_code d
    ∷ bit_code e
    ∷ bit_code f
    ∷ bit_code g
    ∷ bit_code h
    ∷ encode_bits rest

-- The byte in front of what is read behind it.
abbrev cons_byte : Byte → Result (List Byte) → Result (List Byte)
cons_byte b (ok bs) = ok (b ∷ bs)
cons_byte b (err e) = err e

abbrev decode_bits : Text → Result (List Byte)
decode_bits [] = ok []
decode_bits (a ∷ b ∷ c ∷ d ∷ e ∷ f ∷ g ∷ h ∷ rest) =
    cons_byte (bits (a == 1) (b == 1) (c == 1) (d == 1) (e == 1) (f == 1) (g == 1) (h == 1))
      (decode_bits rest)
decode_bits _ = err other

bit-code : (b : Bool) → (bit_code b == 1) ≡ b
bit-code true = refl
bit-code false = refl

decode-encode_bits : (bs : List Byte) → decode_bits (encode_bits bs) ≡ ok bs
decode-encode_bits [] = refl
decode-encode_bits (bits a b c d e f g h ∷ rest) = rw (decode-encode_bits rest) (
    rw (bit-code a) (
      rw (bit-code b) (
        rw (bit-code c) (
          rw (bit-code d)
            (rw (bit-code e) (rw (bit-code f) (rw (bit-code g) (rw (bit-code h) refl))))))))

abbrev encode_index : ℤ → Text
encode_index (pos n) = 0 ∷ n ∷ []
encode_index (negsuc n) = 1 ∷ n ∷ []

abbrev decode_index : ℕ → ℕ → ℤ
decode_index sign n = if sign == 0 then pos n else negsuc n

abbrev encode_envelope : ShareEnvelope → Text
encode_envelope e =
    e.schema ∷ (encode_index e.index ++ (length e.package_id ∷ (e.package_id ++ e.value)))

abbrev decode_envelope : Text → Result ShareEnvelope
decode_envelope (schema ∷ sign ∷ n ∷ size ∷ rest) = ok (record {
  schema = schema;
  package_id = take size rest;
  index = decode_index sign n;
  value = drop size rest;
})
decode_envelope _ = err other

take-append : (xs ys : Text) → take (length xs) (xs ++ ys) ≡ xs
take-append [] ys = refl
take-append (x ∷ xs) ys = ap (λ l. x ∷ l) (take-append xs ys)

decode-encode_envelope :
    (schema : ℕ) (package_id : Text) (index : ℤ) (value : Text)
    → decode_envelope (
        encode_envelope
          (record { schema = schema; package_id = package_id; index = index; value = value }))
      ≡ ok (record { schema = schema; package_id = package_id; index = index; value = value })
decode-encode_envelope schema package_id (pos n) value =
    rw (take-append package_id value) (rw (drop-append package_id value) refl)
decode-encode_envelope schema package_id (negsuc n) value =
    rw (take-append package_id value) (rw (drop-append package_id value) refl)

abbrev read_time : Text → Result ℕ
read_time (n ∷ []) = ok n
read_time _ = err other

abbrev pub sample_codec : Codec
sample_codec = record {
  marshal_share = λ e. ok (encode_envelope e);
  unmarshal_share = decode_envelope;
  raw_url_encode = λ t. t;
  raw_url_decode = λ t. ok t;
  std_encode = encode_bits;
  std_decode = decode_bits;
  sha256_hex = encode_bits;
  format_time = λ now. now ∷ [];
  parse_time = read_time;
}

ok-injective : (s t : Text) → ◌≡◌ {A = Result Text} (ok s) (ok t) → s ≡ t
ok-injective s t h = cc

pub sample_codec_laws : CodecLaws sample_codec
sample_codec_laws = record {
  marshal_total = λ e. (encode_envelope e, refl);
  unmarshal-marshal = λ e t h.
      ap decode_envelope (sym (ok-injective (encode_envelope e) t h))
      ∙ decode-encode_envelope e.schema e.package_id e.index e.value;
  raw_url_decode-encode = λ t. refl;
  std_decode-encode = decode-encode_bits;
  parse_time-format = λ now. (now, refl);
}

-- A secret of two bytes, and the coefficient that each polynomial of degree one draws.
abbrev pub sample_secret : List Byte
sample_secret =
    bits false true false true true false true false
    ∷ (bits true false false true false false true true ∷ [])

abbrev pub sample_random : ℕ → Result (List Byte)
sample_random offset = ok (bits false false true false true true false true ∷ [])
