-- ===== src/Broker/EnrollmentExamples.antt =====
-- The theorems of the enrollment service and of the tables of grants at concrete values.
use openbao_attested_unseal.Prelude.Int.{pos}
use openbao_attested_unseal.Prelude.{◌≡◌, refl, arith, true, none, some, [], ◌∷◌}
use openbao_attested_unseal.Prelude.Result.{ok, err, challenge_replayed}
use openbao_attested_unseal.Prelude.Text.{codes, text_eq, has_prefix}
use openbao_attested_unseal.Prelude.Hex.{encode_hex, decode_hex}
use openbao_attested_unseal.Prelude.Trim.{trim_space}
use openbao_attested_unseal.Prelude.Case.{to_lower, is_ascii}
use openbao_attested_unseal.Prelude.Order.{sort, insert_sorted}
use openbao_attested_unseal.Prelude.Split.{cut}
use openbao_attested_unseal.Tpm.Pcr.{
  PcrPolicy, known_hash, check_pcrs, contains_pcr, new_hash, hash_digest_size, bank, normalize,
  parse_digest_string,
}
use openbao_attested_unseal.Tpm.Policy.{
  TpmPolicy, validate_pcr_policy, validate_ak_hash, validate_secure_boot, validate_policy,
}
use openbao_attested_unseal.Tpm.Samples.{sample_library, sample_policy, sample_sum}
use openbao_attested_unseal.Broker.Subjects.{has_text}
use openbao_attested_unseal.Broker.Policy.{allow, allowed}
use openbao_attested_unseal.Nodeevidence.Table.{same_key, find, store, remove}
use openbao_attested_unseal.Nodeevidence.Evidence.{provider_tpm2_quote}
use openbao_attested_unseal.Nodeevidence.Enrollment.{
  canonical_sha256_digest, canonical_hashes, check_enrollment_request, normalize_enrollment_request,
  normalize_enrollment,
}
use openbao_attested_unseal.Broker.NodeRows.{delete_publishers, has_publisher, insert_publishers}
use openbao_attested_unseal.Broker.NodeRows.Enroll.{enroll_rows, enroll_node_evidence}
use openbao_attested_unseal.Broker.NodeSamples.{sample_text, empty_tables}
use openbao_attested_unseal.Broker.Audit.{AuditAttempt, complete}
use openbao_attested_unseal.Broker.EnrollmentService.{
  EnrollmentCall, EnrollmentService, EnrollmentState, role_node_evidence_admin, write_event,
  insert_event, audit_enrollment_decision, find_identity, certificate_hash, authorize_identity,
  authorize_admin, accepts_enrollment_cluster, admit,
}
use openbao_attested_unseal.Broker.EnrollmentService.Message.{
  EnrollMessage, parsed, normalize_enrollment_reason, pcr_indexes, tpm_policy_from_proto,
  tpm_policy_to_proto, enrollment_request_from_proto, enrollment_to_proto,
}
use openbao_attested_unseal.Broker.EnrollmentService.Handlers.{enroll_admitted, handle_enroll}
use openbao_attested_unseal.Broker.EnrollmentService.Traced.{KeepsOrTraces}
use openbao_attested_unseal.Broker.EnrollmentService.Handled.{enroll, Handled-KeepsOrTraces}
use openbao_attested_unseal.Broker.EnrollmentService.PolicyMessage.{
  IsPlain, tpm_policy_from_proto-tpm_policy_to_proto,
}
use openbao_attested_unseal.Broker.GrantRows.{
  EnrollmentRequestRecord, GrantRow, GrantTables, find_grant, mark_grant, replace_request,
  insert_enrollment_request, consume_enrollment_grant,
}
use openbao_attested_unseal.Broker.GrantRows.Once.{
  here, next, request, consume_enrollment_grant_once,
}

abbrev sample_attempt : AuditAttempt
sample_attempt = record {
  audit_id = ok (codes "audit-1");
  time = 100;
  insert = ok tt;
  write = complete;
}

abbrev sample_call : EnrollmentCall
sample_call = record {
  certificate = some (codes "cert");
  remote_address = codes "a";
  now = 100;
  first = sample_attempt;
  second = sample_attempt;
}

abbrev sample_service : EnrollmentService
sample_service = record {
  tpm = sample_library;
  rows = sample_text;
  error_text = λ _. [];
  has_store = true;
  has_audit_store = true;
  has_audit_file = true;
  identities =
      (sample_sum, record { roles = role_node_evidence_admin ∷ []; cluster_ids = codes "c" ∷ [] })
      ∷ [];
  cluster_id = codes "c";
  policy_id = codes "p";
}

abbrev sample_message : EnrollMessage
unfolding tpm_policy_to_proto
sample_message = record {
  cluster_id = codes "c";
  node_name = codes "n";
  node_uid = codes "u";
  provider_id = provider_tpm2_quote;
  tpm_policy = some (tpm_policy_to_proto sample_policy);
  publisher_certificate_sha256 = sample_sum ∷ [];
  reason = codes "new node";
  audit = none;
}

abbrev sample_state : EnrollmentState
sample_state = record { nodes = empty_tables; stored = []; written = [] }

enrolled_sample :
    allowed (handle_enroll sample_service sample_call (some sample_message) sample_state).0.decision
    ≡ true
unfolding text_eq has_prefix encode_hex decode_hex trim_space to_lower is_ascii sort insert_sorted
    cut known_hash check_pcrs contains_pcr new_hash hash_digest_size bank normalize
    parse_digest_string validate_pcr_policy validate_ak_hash validate_secure_boot validate_policy
    has_text allow same_key find store remove canonical_sha256_digest canonical_hashes
    check_enrollment_request normalize_enrollment_request normalize_enrollment delete_publishers
    has_publisher insert_publishers enroll_rows enroll_node_evidence write_event insert_event
    audit_enrollment_decision find_identity certificate_hash authorize_identity authorize_admin
    accepts_enrollment_cluster admit normalize_enrollment_reason pcr_indexes tpm_policy_from_proto
    tpm_policy_to_proto enrollment_request_from_proto enrollment_to_proto enroll_admitted
    handle_enroll
enrolled_sample = refl

Handled-KeepsOrTraces_example :
    KeepsOrTraces sample_service sample_call sample_state
      (handle_enroll sample_service sample_call (some sample_message) sample_state).1
Handled-KeepsOrTraces_example =
    Handled-KeepsOrTraces sample_service sample_call (enroll (some sample_message))

abbrev plain_pcr_policy : PcrPolicy
plain_pcr_policy = record {
  selection = record { hash = codes "sha256"; pcrs = pos 0 ∷ pos 7 ∷ [] };
  expected_digest = codes "sha256:00";
  captured_values = [];
  profile = [];
}

abbrev plain_policy : TpmPolicy
plain_policy = record {
  mode = codes "measured";
  enrolled_ak_public_hash = codes "sha256:11";
  pcr_policy = some plain_pcr_policy;
  provider_profile = [];
}

plain_policy-IsPlain : IsPlain plain_policy
unfolding trim_space
plain_policy-IsPlain = record {
  mode = refl;
  key = refl;
  profile = refl;
  pcrs = λ q h.
      let given : some plain_pcr_policy ≡ some q = h in
      let same : plain_pcr_policy ≡ q = cc given in
      rw (← same) (refl, refl, refl, refl, ((0, refl, omega arith), ((7, refl, omega arith), tt)));
}

tpm_policy_from_proto-tpm_policy_to_proto_example :
    tpm_policy_from_proto (tpm_policy_to_proto plain_policy) ≡ parsed plain_policy
tpm_policy_from_proto-tpm_policy_to_proto_example =
    tpm_policy_from_proto-tpm_policy_to_proto plain_policy plain_policy-IsPlain

abbrev sample_grant : GrantRow
sample_grant = record {
  grant_id = codes "g";
  request_id = codes "r";
  cluster_id = codes "c";
  subject_id = codes "s";
  body = [];
  expires_at = 300 ∷ [];
  consumed_at = none;
  created_at = 100 ∷ [];
}

abbrev granted_tables : GrantTables
granted_tables = record { clusters = codes "c" ∷ []; requests = []; grants = sample_grant ∷ [] }

abbrev consumed_tables : GrantTables
consumed_tables = record {
  clusters = codes "c" ∷ [];
  requests = [];
  grants = record sample_grant { consumed_at = some (200 ∷ []) } ∷ [];
}

abbrev sample_enrollment_request : EnrollmentRequestRecord
sample_enrollment_request = record {
  request_id = codes "r2";
  cluster_id = codes "c";
  subject = codes "s";
  body = [];
  expires_at = 400;
  created_at = 210;
}

abbrev later_tables : GrantTables
later_tables = record consumed_tables {
  requests =
      record {
        request_id = codes "r2";
        cluster_id = codes "c";
        subject_id = codes "s";
        body = [];
        expires_at = 400 ∷ [];
        created_at = 210 ∷ [];
      }
      ∷ [];
}

consumed_grant :
    consume_enrollment_grant sample_text (codes "g") 200 granted_tables ≡ ok consumed_tables
unfolding consume_enrollment_grant find_grant mark_grant text_eq
consumed_grant = refl

requested_sample :
    insert_enrollment_request sample_text sample_enrollment_request consumed_tables
    ≡ ok later_tables
unfolding insert_enrollment_request replace_request has_text text_eq
requested_sample = refl

consume_enrollment_grant_once_example :
    consume_enrollment_grant sample_text (codes "g") 250 later_tables ≡ err challenge_replayed
consume_enrollment_grant_once_example =
    consume_enrollment_grant_once sample_text (codes "g") 200 250 granted_tables consumed_tables
      later_tables consumed_grant (next here (request sample_enrollment_request requested_sample))
