-- ===== src/Broker/Examples.antt =====
-- The theorems of the broker at concrete tables.
use openbao_attested_unseal.Prelude.{
  ◌≡◌, ◌≢◌, ◌↔◌, refl, true, false, none, some, List, [], ◌∷◌, arith,
}
use openbao_attested_unseal.Prelude.Result.{ok}
use openbao_attested_unseal.Prelude.Text.{codes, text_eq, text_eq_iff}
use openbao_attested_unseal.Prelude.Space.{is_blank}
use openbao_attested_unseal.Keyring.Key.{active, validate_ref, valid_identifier, validate_version}
use openbao_attested_unseal.Keyring.Samples.{sample_key}
use openbao_attested_unseal.Keyprotection.{validate_protected_key, unprotect}
use openbao_attested_unseal.Broker.Challenge.{
  StoredChallenge, lookup, put, create_challenge, check_stored, valid_challenge, challenge_nonce,
  consume_challenge,
}
use openbao_attested_unseal.Broker.Challenge.Scope.{IsUsable, valid_challenge-ok}
use openbao_attested_unseal.Broker.Challenge.Once.{
  done, consume_challenge-ok, consume_challenge_once, consume_challenge-create_challenge,
}
use openbao_attested_unseal.Broker.Policy.{operation_wrap}
use openbao_attested_unseal.Broker.Samples.{
  sample_protected, sample_challenge, stored, sample_presented,
}

abbrev used : List StoredChallenge
used = record { challenge = sample_challenge operation_wrap; consumed = true } ∷ []

valid_challenge-ok_example :
    (valid_challenge (sample_presented operation_wrap) (stored operation_wrap)
      ≡ ok (record { challenge = sample_challenge operation_wrap; consumed = false }))
    ↔ IsUsable
        (sample_presented operation_wrap)
        (stored operation_wrap)
        (record { challenge = sample_challenge operation_wrap; consumed = false })
valid_challenge-ok_example =
    valid_challenge-ok (sample_presented operation_wrap) (stored operation_wrap)
      (record { challenge = sample_challenge operation_wrap; consumed = false })

consumed_sample :
    consume_challenge (sample_presented operation_wrap) (stored operation_wrap) ≡ ok used
unfolding lookup put create_challenge check_stored valid_challenge challenge_nonce consume_challenge
    text_eq is_blank
consumed_sample = refl

other_id : codes "c2" ≢ codes "c1"
unfolding text_eq
other_id e =
    let same : text_eq (codes "c2") (codes "c1") ≡ true =
      (text_eq_iff (codes "c2") (codes "c1")).1 e in
    ground arith

consume_challenge-ok_example :
    (c : StoredChallenge) × IsUsable (sample_presented operation_wrap) (stored operation_wrap) c
    × (lookup (sample_presented operation_wrap).id used
        ≡ some (record { challenge = c.challenge; consumed = true }))
    × (lookup (codes "c2") used ≡ lookup (codes "c2") (stored operation_wrap))
consume_challenge-ok_example =
    consume_challenge-ok (sample_presented operation_wrap) (stored operation_wrap) used (codes "c2")
      consumed_sample other_id

consume_challenge_once_example : consume_challenge (sample_presented operation_wrap) used ≢ ok used
consume_challenge_once_example =
    consume_challenge_once (sample_presented operation_wrap) (sample_presented operation_wrap)
      (stored operation_wrap) used used used consumed_sample done refl

created_sample : create_challenge (sample_challenge operation_wrap) [] ≡ ok (stored operation_wrap)
unfolding lookup put create_challenge check_stored valid_challenge challenge_nonce consume_challenge
    text_eq is_blank
created_sample = refl

consume_challenge-create_challenge_example :
    (challenge_nonce (sample_presented operation_wrap) (stored operation_wrap) ≡ ok (9 ∷ []))
    × ((s : List StoredChallenge) × (consume_challenge
            (sample_presented operation_wrap)
            (stored operation_wrap)
          ≡ ok s))
consume_challenge-create_challenge_example =
    consume_challenge-create_challenge (sample_challenge operation_wrap)
      (sample_presented operation_wrap) [] (stored operation_wrap) created_sample refl refl refl
      refl (omega arith)

opened_sample : unprotect none (sample_protected 1 active) ≡ ok (sample_key 1 active)
unfolding unprotect validate_protected_key validate_version validate_ref valid_identifier text_eq
    is_blank
opened_sample = refl
