-- ===== src/Tpm/Pcr.antt =====
-- internal/tpm/pcr.go: selections of PCRs, their digests, and the maps of their values. A map is a
-- list of its entries: the newest first where it is written, in the order of the iteration where it
-- is read through.
pub mod Normal
use openbao_attested_unseal.Prelude.{
  ℕ, Bool, true, false, not, length, is_nil, drop, ◌||◌, Option, none, some, List, [], ◌∷◌, ◌++◌,
  ◌==◌, if◌then◌else◌,
}
use openbao_attested_unseal.Prelude.Result.{Result, ok, err, other, ◌>>=◌, ◌>>◌, guard, or_err}
use openbao_attested_unseal.Prelude.Int.{ℤ, pos, ltb_ℤ, leb_ℤ, eqb_ℤ}
use openbao_attested_unseal.Prelude.Text.{Text, codes, text_eq, is_empty, has_prefix}
use openbao_attested_unseal.Prelude.Trim.{trim_space}
use openbao_attested_unseal.Prelude.Case.{to_lower}
use openbao_attested_unseal.Prelude.Hex.{encode_hex, decode_hex, format_hex}
use openbao_attested_unseal.Prelude.Order.{sort}
use openbao_attested_unseal.Prelude.Split.{cut}
use openbao_attested_unseal.Prelude.Decimal.{atoi, itoa}
use openbao_attested_unseal.Tpm.Library.{
  TpmLibrary, HashAlg, sha1, sha256, sha384, sha512, size, Algorithm, alg_sha1, alg_sha256,
  alg_sha384, alg_sha512, LegacySelection,
}

pub record PcrSelection : Type 0 where
  pub hash : Text
  pub pcrs : List ℤ

pub record PcrPolicy : Type 0 where
  pub selection : PcrSelection
  pub expected_digest : Text
  pub captured_values : List (Text × Text)
  pub profile : Text

-- map[int][]byte
abbrev pub PcrValues : Type 0
PcrValues = List (ℤ × Text)

abbrev pub hash_name : HashAlg → Text
hash_name sha1 = codes "sha1"
hash_name sha256 = codes "sha256"
hash_name sha384 = codes "sha384"
hash_name sha512 = codes "sha512"

-- The switch of validateHashName, newHash, hashDigestSize and legacyHash.
unfoldable pub known_hash : Text → Option HashAlg
known_hash name =
    if text_eq name (hash_name sha1)
    then some sha1
    else if text_eq name (hash_name sha256)
    then some sha256
    else if text_eq name (hash_name sha384)
    then some sha384
    else if text_eq name (hash_name sha512)
    then some sha512
    else none

-- The loop over the sorted indexes, with the index before.
unfoldable pub check_pcrs : Option ℤ → List ℤ → Result (Unit {0})
check_pcrs before [] = ok tt
check_pcrs before (p ∷ ps) = do
  guard (not (ltb_ℤ p (pos 0) || ltb_ℤ (pos 23) p)) other
  guard (elim before [ none ↦ true | some q ↦ not (eqb_ℤ p q) ]) other
  check_pcrs (some p) ps

-- PCRSelection.contains
unfoldable pub contains_pcr : ℤ → List ℤ → Bool
contains_pcr index [] = false
contains_pcr index (p ∷ ps) = if eqb_ℤ p index then true else contains_pcr index ps

unfoldable pub pcr_value : ℤ → PcrValues → Option Text
pcr_value index [] = none
pcr_value index (v ∷ vs) = if eqb_ℤ v.0 index then some v.1 else pcr_value index vs

-- The loop of ComputePCRDigest: what is written to the hash.
unfoldable pub write_values : ℕ → PcrValues → List ℤ → Result Text
write_values want values [] = ok []
write_values want values (p ∷ ps) = do
  value ← or_err (pcr_value p values) other
  guard (length value == want) other
  rest ← write_values want values ps
  ok (value ++ rest)

-- EncodePCRValues
unfoldable pub encode_pcr_values : PcrValues → List (Text × Text)
encode_pcr_values [] = []
encode_pcr_values (v ∷ vs) = (itoa v.0, encode_hex v.1) ∷ encode_pcr_values vs

-- strings.TrimPrefix(s, "0x")
trim_0x : Text → Text
trim_0x s = if has_prefix s (codes "0x") then drop 2 s else s

valid_index : Option ℤ → Result ℤ
valid_index none = err other
valid_index (some i) = if ltb_ℤ i (pos 0) || ltb_ℤ (pos 23) i then err other else ok i

decode_entries : PcrValues → List (Text × Text) → Result PcrValues
unfolding valid_index trim_0x
decode_entries out [] = ok out
decode_entries out (e ∷ es) = do
  index ← valid_index (atoi e.0)
  value ← or_err (decode_hex (trim_0x e.1)) other
  decode_entries ((index, value) ∷ out) es

-- DecodePCRValues
unfoldable pub decode_pcr_values : List (Text × Text) → Result PcrValues
unfolding decode_entries
decode_pcr_values values = guard (not (is_nil values)) other >> decode_entries [] values

unfoldable pub same_pcrs : List ℤ → List ℤ → Bool
same_pcrs [] [] = true
same_pcrs (p ∷ ps) (q ∷ qs) = if eqb_ℤ p q then same_pcrs ps qs else false
same_pcrs _ _ = false

-- sameSelection
unfoldable pub same_selection : PcrSelection → PcrSelection → Bool
unfolding same_pcrs
same_selection left right =
    if text_eq left.hash right.hash then same_pcrs left.pcrs right.pcrs else false

module _ (x : TpmLibrary) where
  -- validateHashName and newHash: the hash that a name stands for
  unfoldable pub new_hash : Text → Result HashAlg
  new_hash name = or_err (known_hash (to_lower x.lower name)) other

  -- hashDigestSize
  unfoldable pub hash_digest_size : Text → Result ℕ
  hash_digest_size name = do h ← new_hash name; ok (size h)

  -- The name of the bank that Normalize validates.
  unfoldable pub bank : Text → Text
  bank name =
      let lowered = to_lower x.lower (trim_space name) in
      if is_empty lowered then hash_name sha256 else lowered

  -- PCRSelection.Normalize
  unfoldable pub normalize : PcrSelection → Result PcrSelection
  normalize s = do
    _ ← new_hash (bank s.hash)
    guard (not (is_nil s.pcrs)) other
    check_pcrs none (sort leb_ℤ s.pcrs)
    ok (record { hash = bank s.hash; pcrs = sort leb_ℤ s.pcrs })

  -- ComputePCRDigest
  unfoldable pub compute_pcr_digest : PcrSelection → PcrValues → Result Text
  compute_pcr_digest s values = do
    normalized ← normalize s
    h ← new_hash normalized.hash
    want ← hash_digest_size normalized.hash
    written ← write_values want values normalized.pcrs
    ok (x.sum h written)

  -- digestString
  unfoldable pub digest_string : Text → Text → Text
  digest_string name digest = to_lower x.lower name ++ b':' ∷ encode_hex digest

  -- parseDigestString
  unfoldable pub parse_digest_string : Text → Result (Text × Text)
  parse_digest_string raw = do
    parts ← or_err (cut b':' raw) other
    let name = to_lower x.lower (parts.0)
    _ ← new_hash name
    digest ← or_err (decode_hex (parts.1)) other
    ok (name, digest)

  -- NewPCRPolicy
  unfoldable pub new_pcr_policy : PcrSelection → PcrValues → Text → Result PcrPolicy
  new_pcr_policy s values profile = do
    digest ← compute_pcr_digest s values
    normalized ← normalize s
    ok (record {
      selection = normalized;
      expected_digest = digest_string normalized.hash digest;
      captured_values = encode_pcr_values values;
      profile = profile;
    })

  -- hashName
  unfoldable pub bank_of : Algorithm → Text
  bank_of alg_sha1 = hash_name sha1
  bank_of alg_sha256 = hash_name sha256
  bank_of alg_sha384 = hash_name sha384
  bank_of alg_sha512 = hash_name sha512
  bank_of alg = codes "0x" ++ format_hex (x.number alg)

  -- selectionFromLegacy
  unfoldable pub selection_from_legacy : LegacySelection → PcrSelection
  selection_from_legacy s = record { hash = bank_of s.alg; pcrs = s.pcrs }
