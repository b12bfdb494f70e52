-- ===== src/Broker/Scenarios.antt =====
-- The theorems of the policy, the handlers and the rotation, over a run that wraps, rotates and
-- unwraps.
use openbao_attested_unseal.Prelude.{
  ◌≡◌, ◌↔◌, ◌⊎◌, refl, true, false, none, some, [], ◌∷◌, ◌==◌, if◌then◌else◌,
}
use openbao_attested_unseal.Prelude.Result.{ok, err, subject_revoked}
use openbao_attested_unseal.Prelude.Text.{codes, text_eq}
use openbao_attested_unseal.Prelude.Space.{is_blank}
use openbao_attested_unseal.Keyring.Key.{
  active, pending, decrypt_only, validate_ref, valid_identifier,
}
use openbao_attested_unseal.Keyring.Ring.{same_ref}
use openbao_attested_unseal.Keyprotection.{ProtectedKey, validate_protected_key}
use openbao_attested_unseal.Broker.Challenge.{
  lookup, put, check_stored, valid_challenge, consume_challenge,
}
use openbao_attested_unseal.Broker.Challenge.Once.{done}
use openbao_attested_unseal.Broker.Keys.{
  find_key, protected_key, query_active, query_max, next_rotation_versions, has_other_active,
  insert_key, with_status, set_status, count_affected, update_key_status,
}
use openbao_attested_unseal.Broker.Subjects.{
  find_subject, load_subject, revoke_subject, mark_revoked,
}
use openbao_attested_unseal.Broker.Subjects.Revocation
use openbao_attested_unseal.Broker.Policy.{
  operation_wrap, operation_unwrap, allow, deny, allowed, evaluate, evaluate_subject, evaluate_key,
  evaluate_node_evidence, check_status, presented,
}
use openbao_attested_unseal.Broker.Policy.Decide.{IsAllowed}
use openbao_attested_unseal.Broker.Policy.Evaluate.{evaluate-allowed, evaluate-state}
use openbao_attested_unseal.Broker.Tables.{consume_in, table_store}
use openbao_attested_unseal.Broker.Tables.Once.{evaluate_once}
use openbao_attested_unseal.Broker.Rotation.{
  RotationOperation, RotationTables, RotationStartRequest, started_operation,
  ensure_no_started_rotation, validate_rotation_start, find_operation, query_rotation_operation,
  insert_operation, start_rotation, version_ref, activate_operation, mark_activated, activate_read,
  activate_rotation,
}
use openbao_attested_unseal.Broker.Rotation.Invariant.{IsSound}
use openbao_attested_unseal.Broker.Rotation.Lifecycle.{
  activate_rotation-started, activate_rotation_again,
}
use openbao_attested_unseal.Broker.Rotation.Reach
use openbao_attested_unseal.Broker.Rotation.Next.{
  next_rotation_key_ref, start_rotation-next_rotation_key_ref,
}
use openbao_attested_unseal.Broker.Samples.{
  sample_protected, sample_subjects, first_tables, sample_engine, sample_policy_request,
}

evaluate-allowed_example :
    ((allowed
          (evaluate table_store sample_engine (sample_policy_request operation_wrap) first_tables).0
        ≡ true)
      × ((evaluate table_store sample_engine (sample_policy_request operation_wrap) first_tables).1
          ≡ first_tables))
    ↔ (IsAllowed table_store sample_engine
          (sample_policy_request operation_wrap)
          first_tables
          first_tables
        × (evaluate table_store sample_engine (sample_policy_request operation_wrap) first_tables
            ≡ (allow sample_engine.policy_id, first_tables)))
evaluate-allowed_example =
    evaluate-allowed table_store sample_engine (sample_policy_request operation_wrap) first_tables
      first_tables

evaluate-state_example :
    (((evaluate table_store sample_engine (sample_policy_request operation_unwrap) first_tables).1
        ≡ first_tables)
      × (allowed
            (evaluate table_store sample_engine
              (sample_policy_request operation_unwrap)
              first_tables).0
          ≡ false))
    ⊎ (consume_in first_tables (presented sample_engine (sample_policy_request operation_unwrap))
        ≡ ok
            (evaluate table_store sample_engine
              (sample_policy_request operation_unwrap)
              first_tables).1)
evaluate-state_example =
    evaluate-state table_store sample_engine (sample_policy_request operation_unwrap) first_tables

first_allowed :
    allowed
      (evaluate table_store sample_engine (sample_policy_request operation_wrap) first_tables).0
    ≡ true
unfolding evaluate evaluate_subject evaluate_key evaluate_node_evidence check_status allow deny
    load_subject find_subject consume_in consume_challenge valid_challenge check_stored lookup put
    text_eq protected_key find_key validate_protected_key validate_ref valid_identifier is_blank
    same_ref
first_allowed = refl

evaluate_once_example :
    allowed
      (evaluate table_store sample_engine
        (sample_policy_request operation_unwrap)
        (evaluate table_store sample_engine
          (sample_policy_request operation_wrap)
          first_tables).1).0
    ≡ false
evaluate_once_example =
    evaluate_once sample_engine sample_engine (sample_policy_request operation_wrap)
      (sample_policy_request operation_unwrap) first_tables
      (evaluate table_store sample_engine (sample_policy_request operation_wrap) first_tables).1
      first_allowed done refl

revoked_subjects :
    revoke_subject (codes "lab") (codes "node") sample_subjects
    ≡ ok (record { cluster_id = codes "lab"; subject = codes "node"; revoked = true } ∷ [])
unfolding revoke_subject find_subject mark_revoked text_eq
revoked_subjects = refl

load_subject-revoke_subject_example :
    load_subject
      (codes "lab")
      (codes "node")
      (record { cluster_id = codes "lab"; subject = codes "node"; revoked = true } ∷ [])
    ≡ err subject_revoked
load_subject-revoke_subject_example =
    Revocation.load_subject-revoke_subject (codes "lab" ∷ []) (codes "lab") (codes "node")
      sample_subjects
      (record { cluster_id = codes "lab"; subject = codes "node"; revoked = true } ∷ [])
      (record { cluster_id = codes "lab"; subject = codes "node"; revoked = true } ∷ [])
      revoked_subjects Revocation.done

-- The rotation of the sample key.
abbrev start_request : RotationStartRequest
start_request = record {
  operation_id = codes "op";
  key = sample_protected 2 pending;
  created_at = 20;
}

abbrev pub operation : RotationOperation
operation = started_operation start_request 1 2 20

abbrev pub fresh : RotationTables
fresh = Reach.fresh_tables (sample_protected 1 active)

abbrev rotating : RotationTables
rotating = record {
  keys = sample_protected 1 active ∷ (sample_protected 2 pending ∷ []);
  operations = operation ∷ [];
  verifications = [];
}

abbrev pub rotated : RotationTables
rotated = record {
  keys = sample_protected 1 decrypt_only ∷ (sample_protected 2 active ∷ []);
  operations = activate_operation 30 operation ∷ [];
  verifications = [];
}

starts : start_rotation start_request 0 fresh ≡ ok (operation, rotating)
unfolding start_rotation validate_rotation_start validate_protected_key validate_ref
    valid_identifier is_blank ensure_no_started_rotation next_rotation_versions query_active
    query_max insert_key insert_operation find_operation find_key has_other_active same_ref text_eq
    activate_rotation query_rotation_operation activate_read update_key_status set_status
    count_affected mark_activated
starts = refl

pub activates :
    activate_rotation (codes "op") 30 0 rotating ≡ ok (activate_operation 30 operation, rotated)
unfolding start_rotation validate_rotation_start validate_protected_key validate_ref
    valid_identifier is_blank ensure_no_started_rotation next_rotation_versions query_active
    query_max insert_key insert_operation find_operation find_key has_other_active same_ref text_eq
    activate_rotation query_rotation_operation activate_read update_key_status set_status
    count_affected mark_activated
activates = refl

pub reached : Reach.Reachable (sample_protected 1 active) rotating
reached = Reach.after Reach.fresh (Reach.start start_request 0 operation starts)

Reachable-IsSound_example : IsSound rotated
Reachable-IsSound_example = Reach.Reachable-IsSound (sample_protected 1 active) rotated (
    Reach.after reached
      (Reach.activate (codes "op") 30 0 (activate_operation 30 operation) activates))

rotating-IsSound : IsSound rotating
rotating-IsSound = Reach.Reachable-IsSound (sample_protected 1 active) rotating reached

found : find_operation (codes "op") rotating.operations ≡ some operation
unfolding find_operation text_eq
found = refl

activate_rotation-started_example :
    (t' : RotationTables) × (old : ProtectedKey) × (new : ProtectedKey) × (activate_rotation
        (codes "op")
        30
        0
        rotating
      ≡ ok (activate_operation (if 30 == 0 then 0 else 30) operation, t'))
    × (find_key (version_ref operation 1) t'.keys ≡ some (with_status decrypt_only old))
    × (find_key (version_ref operation 2) t'.keys ≡ some (with_status active new))
    × (find_key (version_ref operation 1) rotating.keys ≡ some old)
    × (find_key (version_ref operation 2) rotating.keys ≡ some new)
activate_rotation-started_example =
    activate_rotation-started (codes "op") 30 0 rotating operation rotating-IsSound found refl

activate_rotation_again_example :
    activate_rotation (codes "op") 77 0 rotated ≡ ok (activate_operation 30 operation, rotated)
activate_rotation_again_example =
    activate_rotation_again (codes "op") 30 0 77 0 rotating rotated operation
      (activate_operation 30 operation) rotating-IsSound found refl activates

next_given :
    next_rotation_key_ref (codes "lab") (codes "root") fresh.keys
    ≡ ok (sample_protected 2 pending).ref
unfolding next_rotation_key_ref next_rotation_versions query_active query_max text_eq
next_given = refl

start_valid : validate_rotation_start start_request ≡ ok tt
unfolding validate_rotation_start validate_protected_key validate_ref valid_identifier is_blank
    text_eq
start_valid = refl

none_started : ensure_no_started_rotation (codes "lab") (codes "root") fresh.operations ≡ ok tt
unfolding ensure_no_started_rotation
none_started = refl

none_held : find_operation (codes "op") fresh.operations ≡ none
unfolding find_operation
none_held = refl

start_rotation-next_rotation_key_ref_example :
    (o o' : RotationOperation) × (t' t'' : RotationTables) × (start_rotation start_request 0 fresh
      ≡ ok (o, t'))
    × (activate_rotation (codes "op") 30 0 t' ≡ ok (o', t''))
    × (find_key (sample_protected 2 pending).ref t''.keys
        ≡ some (with_status active (sample_protected 2 pending)))
start_rotation-next_rotation_key_ref_example =
    start_rotation-next_rotation_key_ref start_request 0 fresh 30 0
      (Reach.Reachable-IsSound (sample_protected 1 active) fresh Reach.fresh) next_given start_valid
      none_started none_held
