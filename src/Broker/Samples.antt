-- ===== src/Broker/Samples.antt =====
-- Sample tables and a sample service of the broker, for the tests.
use openbao_attested_unseal.Prelude.{ℕ, false, Option, none, some, List, [], ◌∷◌}
use openbao_attested_unseal.Prelude.Result.{ok}
use openbao_attested_unseal.Prelude.Text.{codes}
use openbao_attested_unseal.Keyring.Key.{Status, active, decrypt_only, algorithm_aes256gcm}
use openbao_attested_unseal.Keyring.Samples.{sample_ref, bytes_of}
use openbao_attested_unseal.Keyprotection.{
  ProtectedKey, profile_development, format_development_plaintext_v1, load_keyring,
  development_protector,
}
use openbao_attested_unseal.Broker.Challenge.{Challenge, StoredChallenge, Presented}
use openbao_attested_unseal.Broker.Keys.{protected_keys}
use openbao_attested_unseal.Broker.Subjects.{Subject}
use openbao_attested_unseal.Broker.Policy.{
  PolicyEngine, PolicyRequest, WorkloadIdentity, operation_wrap, operation_unwrap,
}
use openbao_attested_unseal.Broker.Tables.{Tables, table_store}
use openbao_attested_unseal.Broker.Message.{EvidenceEnvelope, WrapRequest}
use openbao_attested_unseal.Broker.Audit.{AuditAttempt, complete}
use openbao_attested_unseal.Broker.Service.{Service, ServiceState}

abbrev pub sample_protected : ℕ → Status → ProtectedKey
sample_protected n status = record {
  ref = sample_ref n;
  status = status;
  algorithm = algorithm_aes256gcm;
  policy_id = codes "default";
  protector_profile = profile_development;
  format = format_development_plaintext_v1;
  payload = bytes_of 32;
}

abbrev pub sample_challenge : ℕ → Challenge
sample_challenge operation = record {
  id = codes "c1";
  nonce = 9 ∷ [];
  cluster_id = codes "lab";
  subject = codes "node";
  operation = operation;
  expires_at = 100;
  created_at = 0;
}

abbrev pub stored : ℕ → List StoredChallenge
stored operation = record { challenge = sample_challenge operation; consumed = false } ∷ []

abbrev pub sample_presented : ℕ → Presented
sample_presented operation = record {
  id = codes "c1";
  cluster_id = codes "lab";
  subject = codes "node";
  operation = operation;
  now = 10;
}

abbrev pub sample_subjects : List Subject
sample_subjects = record { cluster_id = codes "lab"; subject = codes "node"; revoked = false } ∷ []

-- The tables before and after a rotation, each with a challenge for its operation.
abbrev pub first_tables : Tables
first_tables = record {
  challenges = stored operation_wrap;
  subjects = sample_subjects;
  keys = sample_protected 1 active ∷ [];
}

abbrev pub rotated_tables : Tables
rotated_tables = record {
  challenges = stored operation_unwrap;
  subjects = sample_subjects;
  keys = sample_protected 1 decrypt_only ∷ (sample_protected 2 active ∷ []);
}

abbrev pub no_workload : WorkloadIdentity
no_workload = record {
  namespace = [];
  service_account = [];
  pod_name = [];
  pod_uid = [];
  node_name = [];
  node_uid = [];
}

abbrev pub sample_engine : PolicyEngine
sample_engine = record {
  node_evidence = none;
  policy_id = codes "default";
  evidence_time = 10;
  challenge_time = 10;
}

abbrev pub sample_policy_request : ℕ → PolicyRequest
sample_policy_request operation = record {
  cluster_id = codes "lab";
  subject = codes "node";
  workload = no_workload;
  operation = operation;
  challenge_id = codes "c1";
  key_ref = sample_ref 1;
}

abbrev sample_attempt : AuditAttempt
sample_attempt = record {
  audit_id = ok (codes "audit-1");
  time = 30;
  insert = ok tt;
  write = complete;
}

abbrev pub sample_service : Service table_store
sample_service = record {
  cluster_id = codes "lab";
  challenge_ttl = 50;
  keyrings = some (λ t cluster_id.
      load_keyring (development_protector none) (protected_keys cluster_id t.keys));
  verify = λ evidence. ok (record { subject = codes "node"; workload = no_workload });
  engine = sample_engine;
  cancelled = none;
  nonce = ok (bytes_of 12);
  attempt = sample_attempt;
}

abbrev pub state_of : Tables → ServiceState table_store
state_of t = record { store = t; audit = record { stored = []; written = [] } }

abbrev pub sample_evidence : Option EvidenceEnvelope
sample_evidence = some (record { challenge_id = codes "c1"; payload = codes "node" })

abbrev pub sample_wrap_request : WrapRequest
sample_wrap_request = record {
  evidence = sample_evidence;
  requested_key = none;
  plaintext = codes "secret";
  aad = codes "aad";
}
