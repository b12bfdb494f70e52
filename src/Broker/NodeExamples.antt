-- ===== src/Broker/NodeExamples.antt =====
-- The theorems of node enrollments and node evidence at concrete tables.
use openbao_attested_unseal.Prelude.{◌≡◌, refl, true, some}
use openbao_attested_unseal.Prelude.Result.{ok}
use openbao_attested_unseal.Prelude.Text.{text_eq, has_prefix}
use openbao_attested_unseal.Prelude.Hex.{encode_hex, decode_hex}
use openbao_attested_unseal.Prelude.Trim.{trim_space}
use openbao_attested_unseal.Prelude.Case.{to_lower, is_ascii}
use openbao_attested_unseal.Prelude.Order.{sort, insert_sorted, text_leb}
use openbao_attested_unseal.Prelude.Split.{cut}
use openbao_attested_unseal.Prelude.Decimal.{atoi, parse_uint}
use openbao_attested_unseal.Tpm.Pcr.{
  known_hash, check_pcrs, contains_pcr, pcr_value, write_values, decode_pcr_values, same_selection,
  new_hash, hash_digest_size, bank, normalize, compute_pcr_digest, digest_string,
  parse_digest_string, bank_of, selection_from_legacy, same_pcrs,
}
use openbao_attested_unseal.Tpm.Quote.{
  has_values, nonce_digest, public_digest, validate_evidence, verify_nonce_hash, hash_message,
  verify_rsa_signature, verify_signature, verify_ak_signature, verify_attestation,
  verify_attested_pcrs, verify_quote,
}
use openbao_attested_unseal.Tpm.Policy.{
  validate_pcr_policy, validate_ak_hash, validate_secure_boot, validate_policy, claims_of,
  verify_secure_boot_policy, evaluate_mode, evaluate_policy,
}
use openbao_attested_unseal.Tpm.Samples.{sample_library}
use openbao_attested_unseal.Broker.Challenge.{
  lookup, put, check_stored, valid_challenge, challenge_nonce, consume_challenge,
}
use openbao_attested_unseal.Broker.Subjects.{has_text}
use openbao_attested_unseal.Broker.Policy.{allow, allowed}
use openbao_attested_unseal.Nodeevidence.Table.{same_key, find, store, remove}
use openbao_attested_unseal.Nodeevidence.Evidence.{
  check_evidence, normalize_evidence, normalize_submission, join_nul,
}
use openbao_attested_unseal.Nodeevidence.Enrollment.{
  canonical_sha256_digest, canonical_hashes, authorizes_publisher, check_enrollment_request,
  normalize_enrollment_request, normalize_enrollment,
}
use openbao_attested_unseal.Broker.NodeRows.{
  delete_publishers, has_publisher, insert_publishers, publisher_hashes, scan_revoked, scan_row,
  scan_enrollment,
}
use openbao_attested_unseal.Broker.NodeRows.Enroll.{
  enroll_rows, enroll_node_evidence, active_enrollment,
}
use openbao_attested_unseal.Broker.NodeRows.Evidence.{
  upsert_evidence, matches_enrollment, put_enrolled_evidence, expired_rows, delete_rows,
  prune_before,
}
use openbao_attested_unseal.Broker.NodeRows.Steps.{here, next, enroll, put_enrolled}
use openbao_attested_unseal.Broker.NodeRows.Trusted.{IsTrusted, Reach-IsTrusted}
use openbao_attested_unseal.Broker.NodeRows.Bounded.{IsBounded, Reach-IsBounded}
use openbao_attested_unseal.Broker.NodeRows.Revisions.{put_enrolled_evidence-unchanged}
use openbao_attested_unseal.Broker.NodeVerifier.{
  payload_hash, authorize_enrollment, authorize_publisher, read_evidence, verify_tpm,
  verify_provider, verify_submission,
}
use openbao_attested_unseal.Broker.Admin.{
  accepts_cluster, contains_trimmed, can_publish_provider, challenge_subject, accepted_ttl,
  authorize, authorize_request,
}
use openbao_attested_unseal.Broker.Admin.Publish.{
  submission_from_proto, prune_node_evidence, put_verified, presented_challenge, dated,
  publish_verified, publish_authorized, publish_normalized, publish_node_evidence,
}
use openbao_attested_unseal.Broker.Admin.Attested.{IsAttested, publish_node_evidence-IsAttested}
use openbao_attested_unseal.Broker.NodeSamples.{
  sample_text, sample_node, empty_tables, sample_request, sample_row, enrolled_tables,
  sample_node_evidence, stored_tables, sample_admin, sample_call, sample_message, sample_submission,
  sample_state,
}

stored_sample :
    put_enrolled_evidence sample_text sample_node_evidence 1 enrolled_tables ≡ ok stored_tables
unfolding text_eq encode_hex trim_space same_key find store has_text check_evidence
    normalize_evidence upsert_evidence matches_enrollment put_enrolled_evidence
stored_sample = refl

normal_sample : normalize_evidence sample_node_evidence ≡ ok sample_node_evidence
unfolding encode_hex trim_space check_evidence normalize_evidence
normal_sample = refl

held_sample : find sample_node enrolled_tables.enrollments ≡ some sample_row
unfolding same_key text_eq find
held_sample = refl

put_enrolled_evidence-unchanged_example :
    find sample_node enrolled_tables.enrollments ≡ some sample_row
put_enrolled_evidence-unchanged_example =
    put_enrolled_evidence-unchanged sample_library sample_text enrolled_tables enrolled_tables
      stored_tables sample_node_evidence sample_node_evidence sample_row normal_sample held_sample
      here stored_sample

enrolled_sample :
    (enroll_node_evidence sample_library sample_text sample_request empty_tables).0
    ≡ enrolled_tables
unfolding text_eq has_prefix encode_hex decode_hex trim_space to_lower is_ascii sort insert_sorted
    cut known_hash check_pcrs contains_pcr new_hash hash_digest_size bank normalize
    parse_digest_string validate_pcr_policy validate_ak_hash validate_secure_boot validate_policy
    same_key find store remove has_text canonical_sha256_digest canonical_hashes
    check_enrollment_request normalize_enrollment_request delete_publishers has_publisher
    insert_publishers enroll_rows enroll_node_evidence
enrolled_sample = refl

stored_after_enrollment :
    put_enrolled_evidence sample_text sample_node_evidence 1
      (enroll_node_evidence sample_library sample_text sample_request empty_tables).0
    ≡ ok stored_tables
stored_after_enrollment = rw enrolled_sample stored_sample

nothing_stored : IsTrusted empty_tables
unfolding find
nothing_stored k e h provider = cc

Reach-IsTrusted_example : IsTrusted stored_tables
Reach-IsTrusted_example =
    Reach-IsTrusted sample_library sample_text empty_tables stored_tables nothing_stored (
      next (next here (enroll sample_request))
        (put_enrolled sample_node_evidence 1 stored_after_enrollment))

nothing_enrolled : IsBounded empty_tables
unfolding find
nothing_enrolled k r h = cc

Reach-IsBounded_example : IsBounded stored_tables
Reach-IsBounded_example =
    Reach-IsBounded sample_library sample_text empty_tables stored_tables nothing_enrolled (
      next (next here (enroll sample_request))
        (put_enrolled sample_node_evidence 1 stored_after_enrollment))

taken_sample : submission_from_proto (some sample_message) ≡ ok sample_submission
unfolding trim_space normalize_submission submission_from_proto
taken_sample = refl

accepted_sample :
    allowed
      (publish_node_evidence sample_admin sample_call (some sample_message) sample_state).0.decision
    ≡ true
unfolding text_eq has_prefix encode_hex decode_hex trim_space to_lower is_ascii sort insert_sorted
    cut atoi parse_uint text_leb known_hash check_pcrs contains_pcr pcr_value write_values
    decode_pcr_values same_pcrs same_selection new_hash hash_digest_size bank normalize
    compute_pcr_digest digest_string parse_digest_string bank_of selection_from_legacy has_values
    nonce_digest public_digest validate_evidence verify_nonce_hash hash_message verify_rsa_signature
    verify_signature verify_ak_signature verify_attestation verify_attested_pcrs verify_quote
    validate_pcr_policy validate_ak_hash validate_secure_boot validate_policy claims_of
    verify_secure_boot_policy evaluate_mode evaluate_policy lookup put check_stored valid_challenge
    challenge_nonce consume_challenge has_text allow same_key find store remove check_evidence
    normalize_evidence normalize_submission join_nul canonical_sha256_digest canonical_hashes
    authorizes_publisher check_enrollment_request normalize_enrollment_request normalize_enrollment
    publisher_hashes scan_revoked scan_row scan_enrollment active_enrollment upsert_evidence
    matches_enrollment put_enrolled_evidence expired_rows delete_rows prune_before payload_hash
    authorize_enrollment authorize_publisher read_evidence verify_tpm verify_provider
    verify_submission accepts_cluster contains_trimmed can_publish_provider challenge_subject
    accepted_ttl authorize authorize_request submission_from_proto prune_node_evidence put_verified
    presented_challenge dated publish_verified publish_authorized publish_normalized
    publish_node_evidence
accepted_sample = refl

publish_node_evidence-IsAttested_example :
    IsAttested sample_admin sample_call sample_submission sample_state
      (publish_node_evidence sample_admin sample_call (some sample_message) sample_state).1
publish_node_evidence-IsAttested_example =
    publish_node_evidence-IsAttested sample_admin sample_call (some sample_message)
      sample_submission sample_state taken_sample refl accepted_sample
