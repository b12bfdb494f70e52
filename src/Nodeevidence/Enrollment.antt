-- ===== src/Nodeevidence/Enrollment.antt =====
-- internal/nodeevidence/enrollment.go: what an enrollment of a node is, and what the operator's request
-- has to hold.
pub mod Normal
use openbao_attested_unseal.Prelude.{
  ℕ, ◌+◌, ◌%◌, ◌^◌, Bool, true, false, not, is_nil, length, drop, ltb, ◌==◌, ◌&&◌, ◌||◌, Option,
  none, some, List, [], ◌∷◌, ◌++◌, if◌then◌else◌,
}
use openbao_attested_unseal.Prelude.Result.{
  Result, ok, err, other, invalid_enrollment, ◌>>=◌, ◌>>◌, guard, wrap_err, or_err,
}
use openbao_attested_unseal.Prelude.Text.{Text, codes, text_eq, is_empty, has_prefix}
use openbao_attested_unseal.Prelude.Trim.{trim_space}
use openbao_attested_unseal.Prelude.Hex.{encode_hex, decode_hex}
use openbao_attested_unseal.Prelude.Order.{text_leb, sort}
use openbao_attested_unseal.Tpm.Library.{TpmLibrary}
use openbao_attested_unseal.Tpm.Policy.{TpmPolicy, validate_policy}
use openbao_attested_unseal.Broker.Subjects.{has_text}
use openbao_attested_unseal.Nodeevidence.Evidence.{provider_tpm2_quote, is_zero_time}

pub record EnrollmentRequest : Type 0 where
  pub cluster_id : Text
  pub node_name : Text
  pub node_uid : Text
  pub provider : Text
  pub tpm_policy : TpmPolicy
  pub publisher_certificate_hashes : List Text
  pub enrolled_at : ℕ

pub record Enrollment : Type 0 where
  pub cluster_id : Text
  pub node_name : Text
  pub node_uid : Text
  pub provider : Text
  pub tpm_policy : TpmPolicy
  pub publisher_certificate_hashes : List Text
  pub revision : ℕ
  pub enrolled_at : ℕ
  pub updated_at : ℕ
  pub revoked_at : ℕ

-- Enrollment.Active
abbrev pub is_active_enrollment : Enrollment → Bool
is_active_enrollment e = is_zero_time e.revoked_at

-- CanonicalSHA256Digest
unfoldable pub canonical_sha256_digest : Text → Result Text
canonical_sha256_digest value = do
  guard (has_prefix value (codes "sha256:")) other
  raw ← or_err (decode_hex (drop 7 value)) other
  guard (length raw == 32) other
  let canonical = codes "sha256:" ++ encode_hex raw
  guard (text_eq canonical value) other
  ok canonical

-- Enrollment.AuthorizesPublisher
unfoldable pub authorizes_publisher : Enrollment → Text → Bool
authorizes_publisher e certificate_hash = elim (canonical_sha256_digest certificate_hash) [
  | ok canonical ↦ has_text canonical e.publisher_certificate_hashes
  | err _ ↦ false
]

-- The loop over the publisher certificates, with the digests seen so far.
unfoldable pub canonical_hashes : List Text → List Text → Result (List Text)
canonical_hashes seen [] = ok []
canonical_hashes seen (value ∷ values) = do
  canonical ← wrap_err (canonical_sha256_digest value) invalid_enrollment
  guard (not (has_text canonical seen)) invalid_enrollment
  rest ← canonical_hashes (canonical ∷ seen) values
  ok (canonical ∷ rest)

abbrev pub trimmed_request : EnrollmentRequest → EnrollmentRequest
trimmed_request r = record {
  cluster_id = trim_space r.cluster_id;
  node_name = trim_space r.node_name;
  node_uid = trim_space r.node_uid;
  provider = trim_space r.provider;
  tpm_policy = r.tpm_policy;
  publisher_certificate_hashes = r.publisher_certificate_hashes;
  enrolled_at = r.enrolled_at;
}

abbrev pub request_of : Enrollment → EnrollmentRequest
request_of e = record {
  cluster_id = e.cluster_id;
  node_name = e.node_name;
  node_uid = e.node_uid;
  provider = e.provider;
  tpm_policy = e.tpm_policy;
  publisher_certificate_hashes = e.publisher_certificate_hashes;
  enrolled_at = e.enrolled_at;
}

-- The record that a request, a revision and its times make.
abbrev pub enrollment_of : EnrollmentRequest → ℕ → ℕ → ℕ → Enrollment
enrollment_of r revision updated_at revoked_at = record {
  cluster_id = r.cluster_id;
  node_name = r.node_name;
  node_uid = r.node_uid;
  provider = r.provider;
  tpm_policy = r.tpm_policy;
  publisher_certificate_hashes = r.publisher_certificate_hashes;
  revision = revision;
  enrolled_at = r.enrolled_at;
  updated_at = updated_at;
  revoked_at = revoked_at;
}

module _ (x : TpmLibrary) where
  -- NormalizeEnrollmentRequest, on the request with trimmed names
  unfoldable pub check_enrollment_request : EnrollmentRequest → Result EnrollmentRequest
  check_enrollment_request r = do
    guard (not (is_empty r.cluster_id || (is_empty r.node_name || is_empty r.node_uid)))
        invalid_enrollment
    guard (text_eq r.provider provider_tpm2_quote) invalid_enrollment
    guard (not (is_empty (trim_space (r.tpm_policy).enrolled_ak_public_hash))) invalid_enrollment
    wrap_err (validate_policy x r.tpm_policy) invalid_enrollment
    guard (not (is_nil r.publisher_certificate_hashes)) invalid_enrollment
    hashes ← canonical_hashes [] r.publisher_certificate_hashes
    guard (not (is_zero_time r.enrolled_at)) invalid_enrollment
    ok (record r { publisher_certificate_hashes = sort text_leb hashes })

  -- NormalizeEnrollmentRequest
  unfoldable pub normalize_enrollment_request : EnrollmentRequest → Result EnrollmentRequest
  normalize_enrollment_request r = check_enrollment_request (trimmed_request r)

  -- NormalizeEnrollment
  unfoldable pub normalize_enrollment : Enrollment → Result Enrollment
  normalize_enrollment e = do
    request ← normalize_enrollment_request (request_of e)
    guard (not (e.revision == 0 || is_zero_time e.updated_at)) invalid_enrollment
    guard (not (ltb e.updated_at request.enrolled_at)) invalid_enrollment
    guard (not (not (is_zero_time e.revoked_at) && ltb e.revoked_at e.updated_at))
        invalid_enrollment
    ok (enrollment_of request e.revision e.updated_at e.revoked_at)
