-- ===== src/Broker/NodeRows/Enroll.antt =====
-- internal/broker/sqlite.go: the transactions that enroll a node and revoke it, and the query of an active
-- enrollment.
use openbao_attested_unseal.Prelude.{ℕ, ◌+◌, not, ltb, ◌==◌, ◌||◌, none, some, if◌then◌else◌}
use openbao_attested_unseal.Prelude.Result.{
  Result, ok, err, other, invalid_enrollment, enrollment_not_found, enrollment_revoked, ◌>>=◌, ◌>>◌,
  guard, wrap_err, or_err,
}
use openbao_attested_unseal.Prelude.Text.{Text, is_empty}
use openbao_attested_unseal.Tpm.Library.{TpmLibrary}
use openbao_attested_unseal.Broker.Subjects.{has_text}
use openbao_attested_unseal.Broker.ChallengeRows.{is_some}
use openbao_attested_unseal.Nodeevidence.Table.{NodeKey, find, store, remove}
use openbao_attested_unseal.Nodeevidence.Evidence.{is_zero_time, trimmed_key}
use openbao_attested_unseal.Nodeevidence.Enrollment.{
  EnrollmentRequest, Enrollment, is_active_enrollment, normalize_enrollment_request,
  normalize_enrollment, enrollment_of,
}
use openbao_attested_unseal.Broker.NodeRows.{
  EnrollmentRow, NodeTables, NodeText, delete_publishers, insert_publishers, max_revision,
  publisher_hashes, revision_of, scan_enrollment, scan_row,
}

module _ (t : NodeText) where
  -- The transaction of EnrollNodeEvidence on a request that is normalised: the row of the next revision,
  -- its publishers, and no evidence of the node.
  unfoldable pub enroll_rows : EnrollmentRequest → NodeTables → Result (NodeTables × ℕ)
  enroll_rows r s = do
    policy ← wrap_err (t.marshal_policy r.tpm_policy) other
    let k : NodeKey = record { cluster_id = r.cluster_id; node_name = r.node_name }
    let current = revision_of (find k s.enrollments)
    guard (not (current == max_revision)) other
    guard (has_text r.cluster_id s.clusters) other
    publishers ←
        insert_publishers k r.publisher_certificate_hashes (delete_publishers k s.publishers)
    ok (
      record {
        clusters = s.clusters;
        enrollments =
            store k
              (record {
                node_uid = r.node_uid;
                provider = r.provider;
                tpm_policy = policy;
                revision = current + 1;
                enrolled_at = t.format_time r.enrolled_at;
                updated_at = t.format_time r.enrolled_at;
                revoked_at = none;
              })
              s.enrollments;
        publishers = publishers;
        evidence = remove k s.evidence;
      },
      current + 1,
    )

  -- UPDATE node_evidence_enrollments SET revision = ?, updated_at = ?, revoked_at = ?
  abbrev pub revoke_row : ℕ → ℕ → EnrollmentRow → EnrollmentRow
  revoke_row revision now r = record r {
    revision = revision;
    updated_at = t.format_time now;
    revoked_at = some (t.format_time now);
  }

  -- The transaction of RevokeNodeEvidence on trimmed names: the row of an active enrollment is marked,
  -- under the next revision, and the evidence of the node is deleted.
  unfoldable pub revoke_rows : NodeKey → ℕ → NodeTables → Result (NodeTables × Enrollment)
  revoke_rows k now s = do
    r ← or_err (find k s.enrollments) enrollment_not_found
    e ← scan_row t k r
    guard (is_active_enrollment e) enrollment_revoked
    guard (ltb e.revision max_revision) other
    ok (
      record {
        clusters = s.clusters;
        enrollments =
            (if is_some r.revoked_at
              then s.enrollments
              else store k (revoke_row (e.revision + 1) now r) s.enrollments);
        publishers = s.publishers;
        evidence = remove k s.evidence;
      },
      record e { revision = e.revision + 1; updated_at = now; revoked_at = now },
    )

module _ (x : TpmLibrary) (t : NodeText) where
  -- What follows the commit of EnrollNodeEvidence: the record is normalised, and the tables are changed
  -- also where that fails.
  abbrev enrolled :
      NodeTables → EnrollmentRequest → Result (NodeTables × ℕ) → NodeTables × Result Enrollment
  enrolled s r (err e) = (s, err e)
  enrolled s r (ok (s', revision)) =
      (s', normalize_enrollment x (enrollment_of r revision r.enrolled_at 0))

  -- SQLiteStore.EnrollNodeEvidence
  unfoldable pub enroll_node_evidence :
      EnrollmentRequest → NodeTables → NodeTables × Result Enrollment
  enroll_node_evidence request s = elim (normalize_enrollment_request x request) [
    | err e ↦ (s, err e)
    | ok r ↦ enrolled s r (enroll_rows t r s)
  ]

  -- What follows the commit of RevokeNodeEvidence.
  abbrev revoked :
      NodeTables → NodeKey → Result (NodeTables × Enrollment) → NodeTables × Result Enrollment
  revoked s k (err e) = (s, err e)
  revoked s k (ok (s', e)) = (
    s',
    normalize_enrollment x
        (record e { publisher_certificate_hashes = publisher_hashes k s'.publishers }),
  )

  -- SQLiteStore.RevokeNodeEvidence
  unfoldable pub revoke_node_evidence :
      Text → Text → ℕ → NodeTables → NodeTables × Result Enrollment
  revoke_node_evidence cluster_id node_name now s =
      let k = trimmed_key cluster_id node_name in
      if is_empty k.cluster_id || (is_empty k.node_name || is_zero_time now)
      then (s, err invalid_enrollment)
      else revoked s k (revoke_rows t k now s)

  -- SQLiteStore.ActiveNodeEvidenceEnrollment
  unfoldable pub active_enrollment : Text → Text → NodeTables → Result Enrollment
  active_enrollment cluster_id node_name s = do
    let k = trimmed_key cluster_id node_name
    e ← scan_enrollment t k s.enrollments
    guard (is_active_enrollment e) enrollment_revoked
    normalize_enrollment x
        (record e { publisher_certificate_hashes = publisher_hashes k s.publishers })
