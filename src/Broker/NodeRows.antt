-- ===== src/Broker/NodeRows.antt =====
-- internal/broker/sqlite.go: the tables of node enrollments, of their publishers and of node evidence.
-- The text of a time and of a policy is a parameter; a table whose primary key is a cluster and a node
-- is a map from those. An operation that fails before its commit leaves the tables as they were.
pub mod Enroll
pub mod Evidence
pub mod Effects
pub mod EvidenceEffects
pub mod Steps
pub mod Trusted
pub mod Revisions
pub mod Query
pub mod Bounded
use openbao_attested_unseal.Prelude.{
  ℕ, ◌+◌, ◌-◌, ◌^◌, Bool, true, false, not, is_nil, ltb, ◌==◌, ◌&&◌, ◌||◌, Option, none, some, List,
  [], ◌∷◌, ◌++◌, if◌then◌else◌,
}
use openbao_attested_unseal.Prelude.Result.{
  Result, ok, err, other, invalid_enrollment, enrollment_not_found, enrollment_revoked,
  enrollment_changed, node_evidence_not_found, node_evidence_stale, ◌>>=◌, ◌>>◌, guard, wrap_err,
  or_err,
}
use openbao_attested_unseal.Prelude.Text.{Text, text_eq, is_empty}
use openbao_attested_unseal.Prelude.Trim.{trim_space}
use openbao_attested_unseal.Prelude.Order.{text_leb, sort}
use openbao_attested_unseal.Tpm.Library.{TpmLibrary}
use openbao_attested_unseal.Tpm.Policy.{TpmPolicy}
use openbao_attested_unseal.Broker.Policy.{NodeEvidence}
use openbao_attested_unseal.Broker.Subjects.{has_text}
use openbao_attested_unseal.Broker.ChallengeRows.{is_some}
use openbao_attested_unseal.Nodeevidence.Table.{NodeKey, same_key, find, store, remove}
use openbao_attested_unseal.Nodeevidence.Evidence.{
  provider_tpm2_quote, is_zero_time, or_now, evidence_key, trimmed_key, normalize_evidence,
}
use openbao_attested_unseal.Nodeevidence.Enrollment.{
  EnrollmentRequest, Enrollment, is_active_enrollment, normalize_enrollment_request,
  normalize_enrollment, enrollment_of,
}

-- UTC().Format and Parse at time.RFC3339Nano, and encoding/json on a TPM policy
pub record NodeText : Type 0 where
  pub format_time : ℕ → Text
  pub parse_time : Text → Result ℕ
  pub marshal_policy : TpmPolicy → Result Text
  pub unmarshal_policy : Text → Result TpmPolicy

pub record EnrollmentRow : Type 0 where
  pub node_uid : Text
  pub provider : Text
  pub tpm_policy : Text
  pub revision : ℕ
  pub enrolled_at : Text
  pub updated_at : Text
  pub revoked_at : Option Text

pub record PublisherRow : Type 0 where
  pub node : NodeKey
  pub certificate_sha256 : Text

pub record EvidenceRow : Type 0 where
  pub node_uid : Option Text
  pub provider : Text
  pub evidence_hash : Text
  pub collected_at : Text
  pub expires_at : Text
  pub enrollment_revision : Option ℕ

-- `clusters` are the rows of the table that the foreign keys refer to.
pub record NodeTables : Type 0 where
  pub clusters : List Text
  pub enrollments : List (NodeKey × EnrollmentRow)
  pub publishers : List PublisherRow
  pub evidence : List (NodeKey × EvidenceRow)

-- maxNodeEvidenceEnrollmentRevision
abbrev pub max_revision : ℕ
max_revision = 2 ^ 63 - 1

-- The revision that a query reads, 0 where it finds no row.
abbrev pub revision_of : Option EnrollmentRow → ℕ
revision_of none = 0
revision_of (some r) = r.revision

-- DELETE FROM node_evidence_publishers WHERE cluster_id = ? AND node_name = ?
unfoldable pub delete_publishers : NodeKey → List PublisherRow → List PublisherRow
delete_publishers k [] = []
delete_publishers k (r ∷ rs) =
    let rest = delete_publishers k rs in if same_key r.node k then rest else r ∷ rest

-- The primary key of the table of publishers.
unfoldable pub has_publisher : NodeKey → Text → List PublisherRow → Bool
has_publisher k hash [] = false
has_publisher k hash (r ∷ rs) =
    same_key r.node k && text_eq r.certificate_sha256 hash || has_publisher k hash rs

-- The loop that inserts the publishers of an enrollment.
unfoldable pub insert_publishers :
    NodeKey → List Text → List PublisherRow → Result (List PublisherRow)
insert_publishers k [] rows = ok rows
insert_publishers k (hash ∷ hashes) rows = do
  guard (not (has_publisher k hash rows)) other
  insert_publishers k hashes (record { node = k; certificate_sha256 = hash } ∷ rows)

select_publishers : NodeKey → List PublisherRow → List Text
select_publishers k [] = []
select_publishers k (r ∷ rs) =
    let rest = select_publishers k rs in
    if same_key r.node k then r.certificate_sha256 ∷ rest else rest

-- nodeEvidencePublisherHashes
unfoldable pub publisher_hashes : NodeKey → List PublisherRow → List Text
unfolding select_publishers
publisher_hashes k rows = sort text_leb (select_publishers k rows)

-- nullableString, and what reads it back
abbrev pub nullable_string : Text → Option Text
nullable_string value = if is_empty value then none else some value

abbrev pub string_or_empty : Option Text → Text
string_or_empty none = []
string_or_empty (some t) = t

module _ (t : NodeText) where
  -- The revoked_at of a row: the zero time where it is NULL
  unfoldable pub scan_revoked : Option Text → Result ℕ
  scan_revoked none = ok 0
  scan_revoked (some raw) = wrap_err (t.parse_time raw) other

  -- scanNodeEvidenceEnrollment, on a row
  unfoldable pub scan_row : NodeKey → EnrollmentRow → Result Enrollment
  scan_row k r = do
    guard (not (r.revision == 0)) other
    policy ← wrap_err (t.unmarshal_policy r.tpm_policy) other
    enrolled_at ← wrap_err (t.parse_time r.enrolled_at) other
    updated_at ← wrap_err (t.parse_time r.updated_at) other
    revoked_at ← scan_revoked r.revoked_at
    ok (record {
      cluster_id = k.cluster_id;
      node_name = k.node_name;
      node_uid = r.node_uid;
      provider = r.provider;
      tpm_policy = policy;
      publisher_certificate_hashes = [];
      revision = r.revision;
      enrolled_at = enrolled_at;
      updated_at = updated_at;
      revoked_at = revoked_at;
    })

  -- scanNodeEvidenceEnrollment
  unfoldable pub scan_enrollment : NodeKey → List (NodeKey × EnrollmentRow) → Result Enrollment
  scan_enrollment k rows = do r ← or_err (find k rows) enrollment_not_found; scan_row k r

  -- scanNodeEvidence, on a row
  unfoldable pub scan_evidence : NodeKey → EvidenceRow → Result NodeEvidence
  scan_evidence k r = do
    collected_at ← wrap_err (t.parse_time r.collected_at) other
    expires_at ← wrap_err (t.parse_time r.expires_at) other
    ok (record {
      cluster_id = k.cluster_id;
      node_name = k.node_name;
      node_uid = string_or_empty r.node_uid;
      provider = r.provider;
      evidence_hash = r.evidence_hash;
      collected_at = collected_at;
      expires_at = expires_at;
    })
