-- ===== src/Tpm/Examples.antt =====
-- The theorems of the TPM policies at concrete evidence.
use openbao_attested_unseal.Prelude.{◌≡◌, ◌↔◌, refl, true}
use openbao_attested_unseal.Prelude.Result.{ok}
use openbao_attested_unseal.Prelude.Text.{codes, text_eq, has_prefix}
use openbao_attested_unseal.Prelude.Hex.{encode_hex, decode_hex}
use openbao_attested_unseal.Prelude.Trim.{trim_space}
use openbao_attested_unseal.Prelude.Case.{to_lower, is_ascii}
use openbao_attested_unseal.Prelude.Order.{sort, insert_sorted}
use openbao_attested_unseal.Prelude.Split.{cut}
use openbao_attested_unseal.Prelude.Decimal.{itoa, atoi, format_uint, parse_uint}
use openbao_attested_unseal.Tpm.Pcr.{
  known_hash, check_pcrs, pcr_value, write_values, encode_pcr_values, decode_pcr_values,
  same_selection, new_hash, hash_digest_size, bank, normalize, compute_pcr_digest, digest_string,
  parse_digest_string, new_pcr_policy, bank_of, selection_from_legacy, same_pcrs,
}
use openbao_attested_unseal.Tpm.Quote.{
  has_values, nonce_digest, public_digest, validate_evidence, verify_nonce_hash, hash_message,
  verify_rsa_signature, verify_signature, verify_ak_signature, verify_attestation,
  verify_attested_pcrs, verify_quote,
}
use openbao_attested_unseal.Tpm.Quote.Sound.{IsQuoted, verify_quote-ok}
use openbao_attested_unseal.Tpm.Policy.{validate_pcr_policy, evaluate_policy, claims_of}
use openbao_attested_unseal.Tpm.Policy.Enroll.{validate_pcr_policy-new_pcr_policy}
use openbao_attested_unseal.Tpm.Policy.Evaluate.{IsTrusted, evaluate_policy-ok}
use openbao_attested_unseal.Tpm.Samples.{
  sample_library, sample_laws, sample_selection, sample_values, sample_pcr_policy, sample_nonce,
  sample_evidence, sample_quote_claims, sample_policy,
}

made_sample :
    new_pcr_policy sample_library sample_selection sample_values (codes "lab")
    ≡ ok sample_pcr_policy
unfolding text_eq encode_hex trim_space to_lower is_ascii sort insert_sorted itoa format_uint
    known_hash check_pcrs pcr_value write_values encode_pcr_values new_hash hash_digest_size bank
    normalize compute_pcr_digest digest_string new_pcr_policy
made_sample = refl

validate_pcr_policy-new_pcr_policy_example :
    validate_pcr_policy sample_library sample_pcr_policy ≡ ok tt
validate_pcr_policy-new_pcr_policy_example =
    validate_pcr_policy-new_pcr_policy sample_library sample_laws sample_selection sample_values
      (codes "lab") sample_pcr_policy made_sample

quoted_sample : verify_quote sample_library sample_evidence sample_nonce ≡ ok sample_quote_claims
unfolding text_eq has_prefix encode_hex decode_hex trim_space to_lower is_ascii sort insert_sorted
    cut atoi parse_uint known_hash check_pcrs pcr_value write_values decode_pcr_values same_pcrs
    same_selection new_hash hash_digest_size bank normalize compute_pcr_digest digest_string
    parse_digest_string bank_of selection_from_legacy has_values nonce_digest public_digest
    validate_evidence verify_nonce_hash hash_message verify_rsa_signature verify_signature
    verify_ak_signature verify_attestation verify_attested_pcrs verify_quote
quoted_sample = refl

verify_quote-ok_example : IsQuoted sample_library sample_evidence sample_nonce sample_quote_claims
verify_quote-ok_example =
    verify_quote-ok sample_library sample_evidence sample_nonce sample_quote_claims quoted_sample

evaluate_policy-ok_example :
    (evaluate_policy sample_library sample_evidence sample_nonce sample_policy
      ≡ ok (claims_of sample_quote_claims sample_policy true))
    ↔ IsTrusted sample_library sample_evidence sample_nonce sample_policy
        (claims_of sample_quote_claims sample_policy true)
evaluate_policy-ok_example =
    evaluate_policy-ok sample_library sample_evidence sample_nonce sample_policy
      (claims_of sample_quote_claims sample_policy true)
