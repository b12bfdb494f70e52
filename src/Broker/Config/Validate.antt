-- ===== src/Broker/Config/Validate.antt =====
-- internal/broker/config.go: Config.Validate, check by check.
use openbao_attested_unseal.Prelude.{not, is_nil, ◌&&◌, ◌||◌, if◌then◌else◌}
use openbao_attested_unseal.Prelude.Result.{Result, ok, other, ◌>>=◌, ◌>>◌, guard}
use openbao_attested_unseal.Prelude.Int.{pos, ltb_ℤ}
use openbao_attested_unseal.Prelude.Text.{text_eq, is_empty}
use openbao_attested_unseal.Prelude.Trim.{trim_space}
use openbao_attested_unseal.Keyring.Key.{validate_identifier}
use openbao_attested_unseal.Keyprotection.{profile_development}
use openbao_attested_unseal.Broker.Admin.{default_challenge_ttl}
use openbao_attested_unseal.Broker.Config.{
  Config, exporter_none, exporter_stdout, seconds_or, config_profile, config_policy, exporter,
  development_subjects, development_wrapping_key, validate_identifiers_of, validate_policy_document,
}
use openbao_attested_unseal.Broker.Config.Identities.{validate_control_plane}
use openbao_attested_unseal.Broker.Config.Nodes.{validate_kubernetes}

-- Config.validateRequiredPaths
unfoldable pub validate_required_paths : Config → Result (Unit {0})
validate_required_paths c = do
  guard (not (is_empty (trim_space c.listen_address))) other
  guard (not (is_empty (trim_space c.sqlite_path))) other
  guard (not (is_empty (trim_space c.audit_file_path))) other

-- Config.validateTLS
unfoldable pub validate_tls : Config → Result (Unit {0})
validate_tls c = do
  guard (c.allow_plaintext_for_tests || not (is_empty (trim_space c.tls_cert_file))) other
  guard (c.allow_plaintext_for_tests || not (is_empty (trim_space c.tls_key_file))) other
  guard (not (c.require_client_cert && is_empty (trim_space c.client_ca_file))) other

-- Config.validateIdentifiers
unfoldable pub validate_identifiers : Config → Result (Unit {0})
validate_identifiers c = do
  validate_identifier c.cluster_id
  validate_identifier c.key_id
  validate_identifier (config_policy c)

-- Config.validateModes
unfoldable pub validate_modes : Config → Result (Unit {0})
validate_modes c = do
  guard (text_eq (config_profile c) profile_development) other
  guard (text_eq (exporter c) exporter_none || text_eq (exporter c) exporter_stdout) other

-- Config.validateDefaultPolicy
unfoldable pub validate_default_policy : Config → Result (Unit {0})
validate_default_policy c = if is_empty (trim_space c.default_policy_path) then ok tt else (do
  guard (not (is_empty c.default_policy.policy_id)) other
  validate_policy_document c.default_policy)

-- Config.validateDevelopment
unfoldable pub validate_development : Config → Result (Unit {0})
validate_development c = do
  validate_identifiers_of (development_subjects c)
  if is_nil (development_subjects c) then ok tt else (do _ ← development_wrapping_key c; ok tt)

-- Config.validateChallengeTTL
unfoldable pub validate_challenge_ttl : Config → Result (Unit {0})
validate_challenge_ttl c =
    guard (ltb_ℤ (pos 0) (seconds_or c.challenge_ttl_seconds default_challenge_ttl)) other

-- Config.Validate
unfoldable pub validate_config : Config → Result (Unit {0})
validate_config c = do
  validate_required_paths c
  validate_tls c
  validate_identifiers c
  validate_modes c
  validate_default_policy c
  validate_development c
  validate_challenge_ttl c
  validate_control_plane c
  validate_kubernetes c
