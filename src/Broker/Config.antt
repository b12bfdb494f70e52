-- ===== src/Broker/Config.antt =====
-- internal/broker/config.go: the configuration of a broker, as its file gives it, and the values that
-- stand for what the file leaves out. A map is the list of its entries in the order of a visit. Fields
-- that no check reads are left out.
pub mod Identities
pub mod Nodes
pub mod Validate
pub mod Listed
pub mod Trusted
use openbao_attested_unseal.Prelude.{
  ℕ, ◌+◌, ◌-◌, ◌*◌, ◌%◌, ◌^◌, suc, Bool, true, false, not, ltb, ◌==◌, ◌&&◌, ◌||◌, Option, none,
  some, List, [], ◌∷◌, ◌++◌, length, is_nil, if◌then◌else◌,
}
use openbao_attested_unseal.Prelude.Result.{Result, ok, err, other, ◌>>=◌, ◌>>◌, guard, or_err}
use openbao_attested_unseal.Prelude.Int.{ℤ, pos, negsuc, eqb_ℤ}
use openbao_attested_unseal.Prelude.Text.{Text, codes, text_eq, is_empty}
use openbao_attested_unseal.Prelude.Trim.{trim_space}
use openbao_attested_unseal.Prelude.Order.{text_leb, sort}
use openbao_attested_unseal.Prelude.Base64.{decode_base64}
use openbao_attested_unseal.Keyring.Key.{key_size, validate_identifier}
use openbao_attested_unseal.Keyprotection.{profile_development}
use openbao_attested_unseal.Broker.Subjects.{has_text}
use openbao_attested_unseal.Broker.EnrollmentService.{ControlPlaneIdentity}

pub record PolicyDocument : Type 0 where
  pub policy_id : Text
  pub mode : Text
  pub development_subjects : List Text

pub record KubernetesConfig : Type 0 where
  pub enabled : Bool
  pub token_review_audience : Text
  pub namespace : Text
  pub service_account : Text
  pub node_evidence_ttl_seconds : ℤ
  pub node_evidence_retention_seconds : ℤ
  pub api_timeout_seconds : ℤ
  pub node_evidence_publish_providers : List Text

pub record Config : Type 0 where
  pub listen_address : Text
  pub tls_cert_file : Text
  pub tls_key_file : Text
  pub client_ca_file : Text
  pub require_client_cert : Bool
  pub allow_plaintext_for_tests : Bool
  pub sqlite_path : Text
  pub audit_file_path : Text
  pub otel_exporter : Text
  pub default_policy_path : Text
  pub keyring_protection_profile : Text
  pub cluster_id : Text
  pub key_id : Text
  pub policy_id : Text
  pub identities : List (Text × ControlPlaneIdentity)
  pub development_subject : Text
  pub development_wrapping_key_b64 : Text
  pub challenge_ttl_seconds : ℤ
  pub kubernetes : KubernetesConfig
  pub default_policy : PolicyDocument

-- OTelExporterNone, OTelExporterStdout and PolicyModeDevelopmentSubject
abbrev pub exporter_none : Text
exporter_none = codes "none"

abbrev pub exporter_stdout : Text
exporter_stdout = codes "stdout"

abbrev pub mode_development_subject : Text
mode_development_subject = codes "development-subject"

-- An int64 of a natural number and of the negation of one, which wrap.
abbrev pub int64_of : ℕ → ℤ
int64_of n = let m = n % 2 ^ 64 in if ltb m (2 ^ 63) then pos m else negsuc (2 ^ 64 - m - 1)

abbrev pub int64_neg : ℕ → ℤ
int64_neg n = int64_of (2 ^ 64 - n % 2 ^ 64)

-- time.Duration(seconds) * time.Second
unfoldable pub duration_of_seconds : ℤ → ℤ
duration_of_seconds (pos n) = int64_of (n * 10 ^ 9)
duration_of_seconds (negsuc n) = int64_neg (suc n * 10 ^ 9)

-- The duration of a number of seconds, and what stands for 0.
abbrev pub seconds_or : ℤ → ℕ → ℤ
seconds_or seconds fallback =
    if eqb_ℤ seconds (pos 0) then pos fallback else duration_of_seconds seconds

-- DefaultKubernetesAPITimeout
abbrev pub default_api_timeout : ℕ
default_api_timeout = 10 * 10 ^ 9

-- Config.Profile
unfoldable pub config_profile : Config → Text
config_profile c =
    if is_empty (trim_space c.keyring_protection_profile)
    then profile_development
    else trim_space c.keyring_protection_profile

-- Config.Policy
unfoldable pub config_policy : Config → Text
config_policy c =
    if not (is_empty (trim_space c.default_policy.policy_id))
    then trim_space c.default_policy.policy_id
    else if is_empty (trim_space c.policy_id)
    then codes "development"
    else trim_space c.policy_id

-- Config.Exporter
unfoldable pub exporter : Config → Text
exporter c =
    if is_empty (trim_space c.otel_exporter) then exporter_none else trim_space c.otel_exporter

-- The function add of DevelopmentSubjects, whose map holds the subjects so far.
unfoldable pub add_subject : Text → List Text → List Text
add_subject subject subjects =
    let trimmed = trim_space subject in
    if is_empty trimmed
    then subjects
    else if has_text trimmed subjects
    then subjects
    else subjects ++ trimmed ∷ []

unfoldable pub add_subjects : List Text → List Text → List Text
add_subjects [] subjects = subjects
add_subjects (t ∷ ts) subjects = add_subjects ts (add_subject t subjects)

-- Config.DevelopmentSubjects
unfoldable pub development_subjects : Config → List Text
development_subjects c =
    sort text_leb
      (add_subjects c.default_policy.development_subjects (add_subject c.development_subject []))

-- Config.DevelopmentWrappingKey
unfoldable pub development_wrapping_key : Config → Result Text
development_wrapping_key c = do
  let raw = trim_space c.development_wrapping_key_b64
  guard (not (is_empty raw)) other
  key ← or_err (decode_base64 raw) other
  guard (length key == key_size) other
  ok key

unfoldable pub validate_identifiers_of : List Text → Result (Unit {0})
validate_identifiers_of [] = ok tt
validate_identifiers_of (t ∷ ts) = do validate_identifier t; validate_identifiers_of ts

-- PolicyDocument.Validate
unfoldable pub validate_policy_document : PolicyDocument → Result (Unit {0})
validate_policy_document p = do
  validate_identifier p.policy_id
  guard (text_eq p.mode mode_development_subject) other
  guard (not (is_nil p.development_subjects)) other
  validate_identifiers_of p.development_subjects

-- WithLoadedPolicy, where `load` reads and parses a policy document; LoadPolicyDocument validates it.
unfoldable pub with_loaded_policy : (Text → Result PolicyDocument) → Config → Result Config
with_loaded_policy load c =
    let path = trim_space c.default_policy_path in
    if is_empty path then ok c else (do
      p ← load path
      validate_policy_document p
      guard (is_empty (trim_space c.policy_id) || text_eq c.policy_id p.policy_id) other
      ok (record c { default_policy = p }))
