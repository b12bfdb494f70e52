-- ===== src/Broker/RowExamples.antt =====
-- The theorems of the table challenges at concrete rows.
use openbao_attested_unseal.Prelude.{ℕ, ◌≡◌, refl, none, List, [], ◌∷◌, ap}
use openbao_attested_unseal.Prelude.Result.{Result, ok, err, other}
use openbao_attested_unseal.Prelude.Text.{Text, codes, text_eq}
use openbao_attested_unseal.Prelude.Space.{is_blank}
use openbao_attested_unseal.Broker.Challenge.{create_challenge, consume_challenge, challenge_nonce}
use openbao_attested_unseal.Broker.Subjects.{has_text}
use openbao_attested_unseal.Broker.Policy.{operation_wrap}
use openbao_attested_unseal.Broker.ChallengeRows.{
  RowText, RowTextLaws, ChallengeRow, insert_challenge, row_nonce, consume_row, has_nonce, find_row,
}
use openbao_attested_unseal.Broker.ChallengeRows.Refine.{
  SameOutcome, Represents, row_nonce-challenge_nonce, consume_row-consume_challenge,
}
use openbao_attested_unseal.Broker.ChallengeRows.Insert.{insert_challenge-create_challenge}
use openbao_attested_unseal.Broker.Samples.{sample_challenge, stored, sample_presented}

abbrev head_or_err : Text → Result ℕ
head_or_err [] = err other
head_or_err (t ∷ ts) = ok t

abbrev sample_text : RowText
sample_text = record {
  operation_name = λ n. n ∷ [];
  format_time = λ t. t ∷ [];
  parse_time = head_or_err;
}

abbrev head : Text → ℕ
head [] = 0
head (t ∷ ts) = t

sample_text_laws : RowTextLaws sample_text
sample_text_laws = record { names_differ = λ a b e. ap head e; parse_time-format = λ t. refl }

abbrev sample_row : ChallengeRow
sample_row = record {
  challenge_id = codes "c1";
  nonce = 9 ∷ [];
  cluster_id = codes "lab";
  subject_id = codes "node";
  operation = operation_wrap ∷ [];
  expires_at = 100 ∷ [];
  created_at = 0 ∷ [];
  consumed_at = none;
}

abbrev sample_rows : List ChallengeRow
sample_rows = sample_row ∷ []

held : Represents sample_text sample_text_laws sample_rows (stored operation_wrap)
held = (
  record {
    id = refl;
    nonce = refl;
    cluster = refl;
    subject = refl;
    operation = refl;
    expires = refl;
    consumed = refl;
  },
  tt,
)

row_nonce-challenge_nonce_example :
    row_nonce sample_text (sample_presented operation_wrap) sample_rows
    ≡ challenge_nonce (sample_presented operation_wrap) (stored operation_wrap)
row_nonce-challenge_nonce_example =
    row_nonce-challenge_nonce sample_text sample_text_laws (sample_presented operation_wrap)
      sample_rows (stored operation_wrap) held

consume_row-consume_challenge_example :
    SameOutcome
      (Represents sample_text sample_text_laws)
      (consume_row sample_text (sample_presented operation_wrap) sample_rows)
      (consume_challenge (sample_presented operation_wrap) (stored operation_wrap))
unfolding find_row
consume_row-consume_challenge_example =
    consume_row-consume_challenge sample_text sample_text_laws (sample_presented operation_wrap)
      sample_rows (stored operation_wrap) (refl, tt) held

insert_challenge-create_challenge_example :
    SameOutcome
      (Represents sample_text sample_text_laws)
      (insert_challenge sample_text (codes "lab" ∷ []) (sample_challenge operation_wrap) [])
      (create_challenge (sample_challenge operation_wrap) [])
unfolding is_blank has_nonce has_text text_eq
insert_challenge-create_challenge_example =
    insert_challenge-create_challenge sample_text sample_text_laws (codes "lab" ∷ [])
      (sample_challenge operation_wrap) [] [] tt refl refl refl refl
