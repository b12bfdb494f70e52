-- ===== src/Tpm/Samples.antt =====
-- A concrete library of the TPM, and evidence and policies over it, for the tests. The sum of every
-- message is 7 in each byte, a quote is the nonce that it attests, and the signature of a message is
-- the message.
use openbao_attested_unseal.Prelude.{
  ℕ, zero, suc, ◌≡◌, refl, true, false, none, some, [], ◌∷◌, ◌++◌, length, All, arith,
}
use openbao_attested_unseal.Prelude.Result.{ok}
use openbao_attested_unseal.Prelude.Int.{pos}
use openbao_attested_unseal.Prelude.Text.{Text, codes, text_eq}
use openbao_attested_unseal.Prelude.Hex.{IsByte, encode_hex}
use openbao_attested_unseal.Prelude.Case.{LowerLaws, to_lower}
use openbao_attested_unseal.Tpm.Library.{size, alg_sha256, alg_rsassa, TpmLibrary, TpmLaws, rsa_key}
use openbao_attested_unseal.Tpm.Pcr.{PcrSelection, PcrPolicy, PcrValues}
use openbao_attested_unseal.Tpm.Quote.{TpmEvidence, QuoteClaims}
use openbao_attested_unseal.Tpm.Policy.{
  TpmPolicy, policy_mode_secure_boot, profile_generic_pc_secure_boot,
}

abbrev sevens : ℕ → Text
sevens zero = []
sevens (suc n) = 7 ∷ sevens n

-- The key of the library is the text whose signatures it verifies.
abbrev pub sample_library : TpmLibrary
sample_library = record {
  lower = λ t. t;
  sum = λ h t. sevens (size h);
  number = λ _. 0;
  decode_public = λ t. ok (rsa_key t);
  decode_signature = λ t. ok (record {
    alg = alg_rsassa;
    rsa = some (record { hash_alg = alg_sha256; signature = t });
    ecc = none;
  });
  decode_attestation = λ q. ok (record {
    is_quote = true;
    extra_data = q;
    quote_info = some (record {
      selection = record { alg = alg_sha256; pcrs = pos 7 ∷ [] };
      pcr_digest = sevens 32;
    });
  });
  hash_of = λ _. ok 5;
  hash_sum = λ _ message. message;
  verify_pss = λ _ _ _ _. false;
  verify_pkcs1v15 = λ _ _ digest signature. text_eq digest signature;
  verify_ecdsa = λ _ _ _ _. false;
}

length-sevens : (n : ℕ) → length (sevens n) ≡ n
length-sevens zero = refl
length-sevens (suc n) = omega (arith, length-sevens n)

sevens-IsByte : (n : ℕ) → All IsByte (sevens n)
sevens-IsByte zero = tt
sevens-IsByte (suc n) = (omega arith, sevens-IsByte n)

sample_lower : LowerLaws (λ t. t)
unfolding to_lower
sample_lower t h = rw h

pub sample_laws : TpmLaws sample_library
sample_laws = record {
  lower_laws = sample_lower;
  length-sum = λ h t. length-sevens (size h);
  sum-IsByte = λ h t. sevens-IsByte (size h);
}

abbrev pub sample_sum : Text
unfolding encode_hex
sample_sum = codes "sha256:" ++ encode_hex (sevens 32)

abbrev pub sample_selection : PcrSelection
sample_selection = record { hash = codes "sha256"; pcrs = pos 7 ∷ [] }

abbrev pub sample_values : PcrValues
sample_values = (pos 7, sevens 32) ∷ []

abbrev pub sample_pcr_policy : PcrPolicy
unfolding encode_hex
sample_pcr_policy = record {
  selection = sample_selection;
  expected_digest = sample_sum;
  captured_values = (codes "7", encode_hex (sevens 32)) ∷ [];
  profile = codes "lab";
}

abbrev pub sample_nonce : Text
sample_nonce = 9 ∷ []

abbrev pub sample_evidence : TpmEvidence
unfolding encode_hex
sample_evidence = record {
  schema_version = 1;
  challenge_id = codes "c1";
  nonce_hash = sample_sum;
  ak_public = codes "ak";
  quote = sample_nonce;
  signature = sample_nonce;
  pcr_selection = sample_selection;
  pcr_values = (codes "7", encode_hex (sevens 32)) ∷ [];
  ek_public_hash = [];
  platform_hint = [];
  collected_by = [];
  collected_at_utc = [];
}

abbrev pub sample_quote_claims : QuoteClaims
sample_quote_claims = record {
  ak_public_hash = sample_sum;
  pcr_selection = sample_selection;
  pcr_digest = sample_sum;
  nonce_hash = sample_sum;
}

abbrev pub sample_policy : TpmPolicy
sample_policy = record {
  mode = policy_mode_secure_boot;
  enrolled_ak_public_hash = sample_sum;
  pcr_policy = some sample_pcr_policy;
  provider_profile = profile_generic_pc_secure_boot;
}
