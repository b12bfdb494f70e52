-- ===== src/Broker/ChallengeRows.antt =====
-- internal/broker/sqlite.go: the table challenges. The text of a time and the name of an operation are
-- a parameter; the constraints of the table are tested where a row is inserted.
pub mod Refine
pub mod Insert
use openbao_attested_unseal.Prelude.{
  ℕ, ◌+◌, ◌≡◌, Bool, true, false, not, ◌&&◌, ◌||◌, Option, none, some, List, [], ◌∷◌, ◌++◌, ltb,
  ◌==◌, if◌then◌else◌,
}
use openbao_attested_unseal.Prelude.Result.{
  Result, ok, err, challenge_not_found, challenge_mismatch, challenge_replayed, challenge_expired,
  other, ◌>>=◌, ◌>>◌, guard, wrap_err,
}
use openbao_attested_unseal.Prelude.Text.{Text, text_eq}
use openbao_attested_unseal.Broker.Challenge.{Challenge, Presented}
use openbao_attested_unseal.Broker.Subjects.{has_text}

-- Operation.String of the generated protobuf code, and UTC().Format and Parse at time.RFC3339Nano
pub record RowText : Type 0 where
  pub operation_name : ℕ → Text
  pub format_time : ℕ → Text
  pub parse_time : Text → Result ℕ

pub record RowTextLaws (x : RowText) : Type 0 where
  -- the names of two operations differ
  pub names_differ : (a b : ℕ) → x.operation_name a ≡ x.operation_name b → a ≡ b
  -- Parse reads what Format writes
  pub parse_time-format : (t : ℕ) → x.parse_time (x.format_time t) ≡ ok t

pub record ChallengeRow : Type 0 where
  pub challenge_id : Text
  pub nonce : Text
  pub cluster_id : Text
  pub subject_id : Text
  pub operation : Text
  pub expires_at : Text
  pub created_at : Text
  pub consumed_at : Option Text

abbrev pub is_some : Option Text → Bool
is_some none = false
is_some (some t) = true

unfoldable pub find_row : Text → List ChallengeRow → Option ChallengeRow
find_row id [] = none
find_row id (r ∷ rs) = if text_eq r.challenge_id id then some r else find_row id rs

unfoldable pub has_nonce : Text → List ChallengeRow → Bool
has_nonce n [] = false
has_nonce n (r ∷ rs) = text_eq r.nonce n || has_nonce n rs

-- SET consumed_at = ? WHERE challenge_id = ? AND consumed_at IS NULL
abbrev pub consumes : Text → ChallengeRow → Bool
consumes id r = text_eq r.challenge_id id && not (is_some r.consumed_at)

abbrev pub with_consumed : Text → ChallengeRow → ChallengeRow
with_consumed t r = record {
  challenge_id = r.challenge_id;
  nonce = r.nonce;
  cluster_id = r.cluster_id;
  subject_id = r.subject_id;
  operation = r.operation;
  expires_at = r.expires_at;
  created_at = r.created_at;
  consumed_at = some t;
}

unfoldable pub mark_consumed : Text → Text → List ChallengeRow → List ChallengeRow
mark_consumed id t [] = []
mark_consumed id t (r ∷ rs) =
    (if consumes id r then with_consumed t r else r) ∷ mark_consumed id t rs

-- RowsAffected of that statement
unfoldable pub count_consumed : Text → List ChallengeRow → ℕ
count_consumed id [] = 0
count_consumed id (r ∷ rs) =
    let rest = count_consumed id rs in if consumes id r then rest + 1 else rest

module _ (x : RowText) where
  -- SQLiteStore.CreateChallenge
  unfoldable pub insert_challenge :
      List Text → Challenge → List ChallengeRow → Result (List ChallengeRow)
  insert_challenge clusters c rows = do
    guard (not (has_nonce c.nonce rows) && has_text c.cluster_id clusters) other
    elim (find_row c.id rows) [
      | some _ ↦ err other
      | none ↦ ok (
          rows
          ++ record {
            challenge_id = c.id;
            nonce = c.nonce;
            cluster_id = c.cluster_id;
            subject_id = c.subject;
            operation = x.operation_name c.operation;
            expires_at = x.format_time c.expires_at;
            created_at = x.format_time c.created_at;
            consumed_at = none;
          }
            ∷ [])
    ]

  -- The checks of ChallengeNonce and of ConsumeChallenge on the row that they read.
  unfoldable pub check_row : Presented → ChallengeRow → Result (Unit {0})
  check_row p r = do
    guard
        (text_eq r.cluster_id p.cluster_id
          && (text_eq r.subject_id p.subject && text_eq r.operation (x.operation_name p.operation)))
        challenge_mismatch
    guard (not (is_some r.consumed_at)) challenge_replayed
    expires ← wrap_err (x.parse_time r.expires_at) other
    guard (ltb p.now expires) challenge_expired

  -- SQLiteStore.ChallengeNonce
  unfoldable pub row_nonce : Presented → List ChallengeRow → Result Text
  row_nonce p rows = elim (find_row p.id rows) [
    | none ↦ err challenge_not_found
    | some r ↦ check_row p r >> ok r.nonce
  ]

  -- SQLiteStore.ConsumeChallenge
  unfoldable pub consume_row : Presented → List ChallengeRow → Result (List ChallengeRow)
  consume_row p rows = elim (find_row p.id rows) [
    | none ↦ err challenge_not_found
    | some r ↦ do
      check_row p r
      guard (not (count_consumed p.id rows == 0)) challenge_replayed
      ok (mark_consumed p.id (x.format_time p.now) rows)
  ]
