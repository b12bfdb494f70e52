-- ===== src/Broker/NodeSamples.antt =====
-- Concrete tables of nodes, and a submission that the broker accepts over them, for the tests.
use openbao_attested_unseal.Prelude.{ℕ, none, some, [], ◌∷◌, ◌++◌, true, false}
use openbao_attested_unseal.Prelude.Result.{Result, ok, err, other}
use openbao_attested_unseal.Prelude.Int.{pos}
use openbao_attested_unseal.Prelude.Text.{Text, codes}
use openbao_attested_unseal.Tpm.Samples.{
  sample_library, sample_policy, sample_sum, sample_nonce, sample_evidence,
}
use openbao_attested_unseal.Broker.Challenge.{StoredChallenge}
use openbao_attested_unseal.Broker.Policy.{NodeEvidence}
use openbao_attested_unseal.Nodeevidence.Table.{NodeKey}
use openbao_attested_unseal.Nodeevidence.Evidence.{Submission, provider_tpm2_quote}
use openbao_attested_unseal.Nodeevidence.Enrollment.{EnrollmentRequest}
use openbao_attested_unseal.Broker.NodeRows.{NodeText, NodeTables, EnrollmentRow}
use openbao_attested_unseal.Broker.NodeVerifier.{format_tpm2_quote}
use openbao_attested_unseal.Broker.Audit.{AuditLogs, complete}
use openbao_attested_unseal.Broker.Admin.{
  AdminLibrary, AdminService, AdminCall, AdminState, NodeAudit, NodeAuditSinks, operation_enroll,
}

abbrev read_time : Text → Result ℕ
read_time (n ∷ []) = ok n
read_time _ = err other

-- A time is written as one number, and every policy as the same text.
abbrev pub sample_text : NodeText
sample_text = record {
  format_time = λ n. n ∷ [];
  parse_time = read_time;
  marshal_policy = λ _. ok (1 ∷ []);
  unmarshal_policy = λ _. ok sample_policy;
}

abbrev pub sample_node : NodeKey
sample_node = record { cluster_id = codes "c"; node_name = codes "n" }

abbrev pub empty_tables : NodeTables
empty_tables = record {
  clusters = codes "c" ∷ [];
  enrollments = [];
  publishers = [];
  evidence = [];
}

abbrev pub sample_request : EnrollmentRequest
sample_request = record {
  cluster_id = codes "c";
  node_name = codes " n";
  node_uid = codes "u";
  provider = provider_tpm2_quote;
  tpm_policy = sample_policy;
  publisher_certificate_hashes = sample_sum ∷ [];
  enrolled_at = 100;
}

abbrev pub sample_row : EnrollmentRow
sample_row = record {
  node_uid = codes "u";
  provider = provider_tpm2_quote;
  tpm_policy = 1 ∷ [];
  revision = 1;
  enrolled_at = 100 ∷ [];
  updated_at = 100 ∷ [];
  revoked_at = none;
}

abbrev pub enrolled_tables : NodeTables
enrolled_tables = record {
  clusters = codes "c" ∷ [];
  enrollments = (sample_node, sample_row) ∷ [];
  publishers = record { node = sample_node; certificate_sha256 = sample_sum } ∷ [];
  evidence = [];
}

abbrev pub sample_node_evidence : NodeEvidence
sample_node_evidence = record {
  cluster_id = codes "c";
  node_name = codes "n";
  node_uid = codes "u";
  provider = provider_tpm2_quote;
  evidence_hash = sample_sum;
  collected_at = 200;
  expires_at = 300;
}

abbrev pub stored_tables : NodeTables
stored_tables = record {
  clusters = codes "c" ∷ [];
  enrollments = (sample_node, sample_row) ∷ [];
  publishers = record { node = sample_node; certificate_sha256 = sample_sum } ∷ [];
  evidence =
      (
        sample_node,
        record {
          node_uid = some (codes "u");
          provider = provider_tpm2_quote;
          evidence_hash = sample_sum;
          collected_at = 200 ∷ [];
          expires_at = 300 ∷ [];
          enrollment_revision = some 1;
        },
      )
      ∷ [];
}

abbrev sample_admin_library : AdminLibrary
sample_admin_library = record {
  tpm = sample_library;
  rows = sample_text;
  unmarshal_evidence = λ _. ok sample_evidence;
  error_text = λ _. [];
  quote = λ t. t;
}

abbrev pub sample_admin : AdminService
sample_admin = record {
  library = sample_admin_library;
  has_node_evidence = true;
  has_enrollments = true;
  cluster_id = codes "c";
  policy_id = codes "p";
  challenge_ttl = 0;
  node_evidence_ttl = 0;
  node_evidence_retention = 0;
  allow_fake_publish = false;
  publish_providers = provider_tpm2_quote ∷ [];
}

-- A service that audits to a file alone.
abbrev pub sample_sinks : NodeAuditSinks
sample_sinks = record {
  has_store = false;
  has_file = true;
  attempt = record {
    audit_id = ok (codes "audit-1");
    time = 200;
    insert = err other;
    write = complete;
  };
}

abbrev pub no_audit : AuditLogs NodeAudit
no_audit = record { stored = []; written = [] }

abbrev pub sample_call : AdminCall
sample_call = record {
  certificate = some (codes "cert");
  now = 200;
  retention_now = 200;
  answer_now = 200;
  challenge_id = err other;
  nonce = err other;
  sinks = sample_sinks;
}

-- The message, whose TTL is in seconds, and the submission that it stands for.
abbrev pub sample_message : Submission
sample_message = record {
  cluster_id = codes "c";
  node_name = codes "n";
  node_uid = codes "u";
  provider = provider_tpm2_quote;
  format = format_tpm2_quote;
  payload = codes "{}";
  challenge_id = codes "c1";
  requested_ttl = pos 1;
}

abbrev pub sample_submission : Submission
sample_submission = record sample_message { requested_ttl = pos 1000000000 }

abbrev sample_stored : StoredChallenge
sample_stored = record {
  challenge = record {
    id = codes "c1";
    nonce = sample_nonce;
    cluster_id = codes "c";
    subject = codes "node-evidence:" ++ sample_sum;
    operation = operation_enroll;
    expires_at = 250;
    created_at = 150;
  };
  consumed = false;
}

abbrev pub sample_state : AdminState
sample_state = record { challenges = sample_stored ∷ []; nodes = enrolled_tables; audit = no_audit }
