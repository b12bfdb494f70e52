-- ===== src/Broker/GrantRows.antt =====
-- internal/broker/sqlite.go: the tables of enrollment requests and grants. The text of a time is a
-- parameter; an operation that fails leaves the tables as they were.
pub mod Once
use openbao_attested_unseal.Prelude.{
  ℕ, Bool, true, false, not, ltb, ◌&&◌, Option, none, some, List, [], ◌∷◌, ◌++◌, if◌then◌else◌,
}
use openbao_attested_unseal.Prelude.Result.{
  Result, ok, err, other, challenge_not_found, challenge_expired, challenge_replayed, ◌>>=◌, ◌>>◌,
  guard, wrap_err, or_err,
}
use openbao_attested_unseal.Prelude.Text.{Text, text_eq}
use openbao_attested_unseal.Broker.Subjects.{has_text}
use openbao_attested_unseal.Broker.ChallengeRows.{is_some}
use openbao_attested_unseal.Broker.NodeRows.{NodeText}

pub record EnrollmentRequestRecord : Type 0 where
  pub request_id : Text
  pub cluster_id : Text
  pub subject : Text
  pub body : Text
  pub expires_at : ℕ
  pub created_at : ℕ

pub record EnrollmentGrantRecord : Type 0 where
  pub grant_id : Text
  pub request_id : Text
  pub cluster_id : Text
  pub subject : Text
  pub body : Text
  pub expires_at : ℕ
  pub created_at : ℕ

pub record RequestRow : Type 0 where
  pub request_id : Text
  pub cluster_id : Text
  pub subject_id : Text
  pub body : Text
  pub expires_at : Text
  pub created_at : Text

pub record GrantRow : Type 0 where
  pub grant_id : Text
  pub request_id : Text
  pub cluster_id : Text
  pub subject_id : Text
  pub body : Text
  pub expires_at : Text
  pub consumed_at : Option Text
  pub created_at : Text

-- `clusters` are the rows of the table that the foreign keys refer to.
pub record GrantTables : Type 0 where
  pub clusters : List Text
  pub requests : List RequestRow
  pub grants : List GrantRow

unfoldable pub has_request : Text → List RequestRow → Bool
has_request id [] = false
has_request id (r ∷ rs) = if text_eq r.request_id id then true else has_request id rs

-- INSERT OR REPLACE
unfoldable pub replace_request : RequestRow → List RequestRow → List RequestRow
replace_request n [] = n ∷ []
replace_request n (r ∷ rs) =
    let rest = replace_request n rs in
    if text_eq r.request_id n.request_id then n ∷ rs else r ∷ rest

-- WHERE grant_id = ?
unfoldable pub find_grant : Text → List GrantRow → Option GrantRow
find_grant id [] = none
find_grant id (r ∷ rs) = if text_eq r.grant_id id then some r else find_grant id rs

-- The primary key of the table of grants.
unfoldable pub has_grant : Text → List GrantRow → Bool
has_grant id [] = false
has_grant id (r ∷ rs) = if text_eq r.grant_id id then true else has_grant id rs

-- WHERE grant_id = ? AND consumed_at IS NULL
abbrev pub is_unconsumed : Text → GrantRow → Bool
is_unconsumed id r = text_eq r.grant_id id && not (is_some r.consumed_at)

unfoldable pub mark_grant : Text → Text → List GrantRow → List GrantRow
mark_grant id now [] = []
mark_grant id now (r ∷ rs) =
    let rest = mark_grant id now rs in
    if is_unconsumed id r then record r { consumed_at = some now } ∷ rest else r ∷ rest

module _ (t : NodeText) where
  -- InsertEnrollmentRequest
  unfoldable pub insert_enrollment_request :
      EnrollmentRequestRecord → GrantTables → Result GrantTables
  insert_enrollment_request r s = do
    guard (has_text r.cluster_id s.clusters) other
    let row : RequestRow = record {
      request_id = r.request_id;
      cluster_id = r.cluster_id;
      subject_id = r.subject;
      body = r.body;
      expires_at = t.format_time r.expires_at;
      created_at = t.format_time r.created_at;
    }
    ok (record s { requests = replace_request row s.requests })

  abbrev pub grant_row : EnrollmentGrantRecord → GrantRow
  grant_row g = record {
    grant_id = g.grant_id;
    request_id = g.request_id;
    cluster_id = g.cluster_id;
    subject_id = g.subject;
    body = g.body;
    expires_at = t.format_time g.expires_at;
    consumed_at = none;
    created_at = t.format_time g.created_at;
  }

  -- InsertEnrollmentGrant
  unfoldable pub insert_enrollment_grant : EnrollmentGrantRecord → GrantTables → Result GrantTables
  insert_enrollment_grant g s = do
    guard (not (has_grant g.grant_id s.grants)) other
    guard (has_request g.request_id s.requests && has_text g.cluster_id s.clusters) other
    ok (record s { grants = s.grants ++ grant_row g ∷ [] })

  -- ConsumeEnrollmentGrant; the row that is updated is the one that was read.
  unfoldable pub consume_enrollment_grant : Text → ℕ → GrantTables → Result GrantTables
  consume_enrollment_grant id now s = do
    r ← or_err (find_grant id s.grants) challenge_not_found
    guard (not (is_some r.consumed_at)) challenge_replayed
    expires_at ← wrap_err (t.parse_time r.expires_at) other
    guard (ltb now expires_at) challenge_expired
    ok (record s { grants = mark_grant id (t.format_time now) s.grants })
