-- ===== src/Broker/DiagnosticExamples.antt =====
-- The theorems of the diagnostic handlers and of the configuration at concrete inputs.
use openbao_attested_unseal.Prelude.{◌≡◌, ◌≢◌, ◌⊎◌, refl, true, false, none, some, [], ◌∷◌}
use openbao_attested_unseal.Prelude.Result.{ok, err, other, node_evidence_stale}
use openbao_attested_unseal.Prelude.Int.{pos}
use openbao_attested_unseal.Prelude.Text.{codes, text_eq, is_empty, has_prefix}
use openbao_attested_unseal.Prelude.Base64.{decode_base64}
use openbao_attested_unseal.Prelude.Trim.{trim_space}
use openbao_attested_unseal.Keyring.Key.{KeyRef, format_ref, validate_identifier, valid_identifier}
use openbao_attested_unseal.Prelude.Order.{sort, insert_sorted, text_leb}
use openbao_attested_unseal.Prelude.Hex.{encode_hex, decode_hex}
use openbao_attested_unseal.Nodeevidence.Enrollment.{canonical_sha256_digest}
use openbao_attested_unseal.Tpm.Samples.{sample_sum}
use openbao_attested_unseal.Nodeevidence.Evidence.{provider_tpm2_quote, provider_fake_local}
use openbao_attested_unseal.Broker.Subjects.{Subject, has_text}
use openbao_attested_unseal.Broker.Policy.{
  PolicyEngine, PolicyRequest, WorkloadIdentity, allow, allowed, evaluate, operation_unwrap,
}
use openbao_attested_unseal.Broker.Policy.Decide.{HasNodeEvidence}
use openbao_attested_unseal.Broker.Message.{VerifiedEvidence}
use openbao_attested_unseal.Broker.Tables.{table_store}
use openbao_attested_unseal.Broker.Service.{wrap_key_ref}
use openbao_attested_unseal.Broker.Service.Status.{broker_status, broker_status-wrap_key_ref}
use openbao_attested_unseal.Broker.Admin.{contains_trimmed, can_publish_provider}
use openbao_attested_unseal.Broker.Admin.Check.{
  EvidenceChecker, EvidenceCheckRequest, verified_as, check_evidence, fresh_reader,
}
use openbao_attested_unseal.Broker.Admin.CheckAgrees.{check_evidence-evaluate}
use openbao_attested_unseal.Broker.EnrollmentService.{role_node_evidence_admin}
use openbao_attested_unseal.Broker.Config.{
  Config, config_policy, config_profile, exporter, duration_of_seconds, validate_identifiers_of,
  development_subjects, add_subject, add_subjects,
}
use openbao_attested_unseal.Broker.Config.Validate.{
  validate_config, validate_required_paths, validate_tls, validate_identifiers, validate_modes,
  validate_default_policy, validate_development, validate_challenge_ttl,
}
use openbao_attested_unseal.Broker.Config.Nodes.{
  compact, normalized_provider_ids, trim_all, validate_kubernetes,
  validate_kubernetes_node_evidence, validate_node_evidence_providers, validate_providers,
  validate_tpm_transport,
}
use openbao_attested_unseal.Broker.Config.Identities.{
  has_role, validate_clusters, validate_control_plane, validate_identities, validate_identity,
  validate_roles,
}
use openbao_attested_unseal.Broker.Config.Trusted.{IsGuarded, can_publish_provider-IsGuarded}
use openbao_attested_unseal.Broker.Samples.{first_tables, sample_service, sample_policy_request}
use openbao_attested_unseal.Broker.NodeSamples.{sample_admin, sample_sinks, no_audit}

broker_status-wrap_key_ref_example :
    (((broker_status table_store sample_service none first_tables).ready ≡ true)
      × ((ref : KeyRef) × (wrap_key_ref table_store sample_service first_tables none
            ≡ (ref, allow sample_service.engine.policy_id))
          × ((broker_status table_store sample_service none first_tables).active_key_id
              ≡ format_ref ref)))
    ⊎ (((broker_status table_store sample_service none first_tables).ready ≡ false)
        × (allowed (wrap_key_ref table_store sample_service first_tables none).1 ≡ false))
broker_status-wrap_key_ref_example =
    broker_status-wrap_key_ref table_store sample_service none none first_tables refl refl

-- A workload on a node whose evidence is stale.
abbrev sample_workload : WorkloadIdentity
sample_workload = record {
  namespace = codes "openbao";
  service_account = codes "openbao";
  pod_name = codes "openbao-0";
  pod_uid = codes "p";
  node_name = codes "n";
  node_uid = codes "u";
}

abbrev sample_verified : VerifiedEvidence
sample_verified = record { subject = codes "node"; workload = sample_workload }

abbrev sample_checker : EvidenceChecker
sample_checker = record {
  policy_id = codes "default";
  has_store = true;
  node_evidence = some (record {
    fresh = λ cluster_id node_name now. err node_evidence_stale;
    stored = λ cluster_id node_name. err other;
  });
  verify = λ evidence. verified_as sample_verified;
  sha256 = λ t. t;
  marshal = λ evidence. ok evidence.payload;
  evidence_now = 10;
  answer_now = 10;
  sinks = sample_sinks;
}

abbrev check_message : EvidenceCheckRequest
check_message = record {
  cluster_id = codes "lab";
  operation = 0;
  evidence = some (record { challenge_id = codes "c1"; payload = codes "node" });
}

abbrev checked_engine : PolicyEngine
checked_engine = record {
  node_evidence = fresh_reader sample_checker.node_evidence;
  policy_id = codes "default";
  evidence_time = 10;
  challenge_time = 11;
}

abbrev checked_request : PolicyRequest
checked_request = record {
  cluster_id = trim_space (codes "lab");
  subject = codes "node";
  workload = sample_workload;
  operation = operation_unwrap;
  challenge_id = codes "c1";
  key_ref = (sample_policy_request operation_unwrap).key_ref;
}

named : is_empty (trim_space (codes "lab")) ≡ false
unfolding trim_space
named = refl

check_evidence-evaluate_example :
    (((check_evidence table_store sample_checker first_tables
          (some check_message)
          no_audit).0.decision
        ≡ allow checked_engine.policy_id)
      × ((checked_request.subject ≢ [])
          × ((u : Subject) × (table_store.subject first_tables checked_request.cluster_id
                  checked_request.subject
                ≡ ok u))
          × HasNodeEvidence checked_engine checked_request))
    ⊎ ((allowed
            (check_evidence table_store sample_checker first_tables
              (some check_message)
              no_audit).0.decision
          ≡ false)
        × (evaluate table_store checked_engine checked_request first_tables ≡ (
          (check_evidence table_store sample_checker first_tables
              (some check_message)
              no_audit).0.decision,
          first_tables,
        )))
check_evidence-evaluate_example =
    check_evidence-evaluate table_store sample_checker first_tables check_message
      (record { challenge_id = codes "c1"; payload = codes "node" }) sample_verified no_audit
      checked_engine checked_request refl named refl refl
      (record {
        same_reader = refl;
        same_policy = refl;
        same_time = refl;
        same_cluster = refl;
        same_subject = refl;
        same_workload = refl;
      })

-- A configuration that publishes TPM quotes.
abbrev sample_config : Config
sample_config = record {
  listen_address = codes "127.0.0.1:8443";
  tls_cert_file = codes "cert";
  tls_key_file = codes "key";
  client_ca_file = codes "ca";
  require_client_cert = true;
  allow_plaintext_for_tests = false;
  sqlite_path = codes "db";
  audit_file_path = codes "audit";
  otel_exporter = [];
  default_policy_path = [];
  keyring_protection_profile = [];
  cluster_id = codes "c";
  key_id = codes "root";
  policy_id = [];
  identities =
      (sample_sum, record { roles = role_node_evidence_admin ∷ []; cluster_ids = codes "c" ∷ [] })
      ∷ [];
  development_subject = [];
  development_wrapping_key_b64 = [];
  challenge_ttl_seconds = pos 0;
  kubernetes = record {
    enabled = false;
    token_review_audience = [];
    namespace = [];
    service_account = [];
    node_evidence_ttl_seconds = pos 0;
    node_evidence_retention_seconds = pos 0;
    api_timeout_seconds = pos 0;
    node_evidence_publish_providers = provider_tpm2_quote ∷ [];
  };
  default_policy = record { policy_id = []; mode = []; development_subjects = [] };
}

sample_config-valid : validate_config sample_config ≡ ok tt
unfolding validate_config validate_required_paths validate_tls validate_identifiers validate_modes
    validate_default_policy validate_development validate_challenge_ttl compact
    normalized_provider_ids trim_all validate_kubernetes validate_kubernetes_node_evidence
    validate_node_evidence_providers validate_providers validate_tpm_transport has_role
    validate_clusters validate_control_plane validate_identities validate_identity validate_roles
    config_policy config_profile exporter validate_identifiers_of development_subjects add_subject
    add_subjects has_text trim_space validate_identifier valid_identifier text_eq sort insert_sorted
    text_leb canonical_sha256_digest decode_hex encode_hex has_prefix
sample_config-valid = refl

publishes : can_publish_provider sample_admin provider_tpm2_quote ≡ true
unfolding can_publish_provider contains_trimmed trim_space text_eq
publishes = refl

can_publish_provider-IsGuarded_example :
    ((trim_space provider_tpm2_quote ≡ provider_fake_local)
      × (sample_admin.allow_fake_publish ≡ true))
    ⊎ ((trim_space provider_tpm2_quote ≡ provider_tpm2_quote) × IsGuarded sample_config)
can_publish_provider-IsGuarded_example =
    can_publish_provider-IsGuarded sample_config sample_admin provider_tpm2_quote
      sample_config-valid refl publishes

-- A number of seconds that does not fit wraps to a duration that the checks accept.
wrapped_seconds : duration_of_seconds (pos 18446744074) ≡ pos 290448384
unfolding duration_of_seconds
wrapped_seconds = refl

decoded : decode_base64 (codes "aGVsbG8=") ≡ some (codes "hello")
unfolding decode_base64
decoded = refl
