-- ===== src/Broker/NodeRows/Effects.antt =====
-- internal/broker/sqlite.go: what each operation on the tables of nodes changes.
use openbao_attested_unseal.Prelude.{
  ℕ, ◌+◌, ◌≡◌, ◌≢◌, ap, inl, inr, not, none, some, List, [], ◌∷◌, arith, Bool-cases, ◌<◌, ◌≤◌, ltb,
  ◌==◌,
}
use openbao_attested_unseal.Prelude.Result.{
  ok, other, enrollment_not_found, enrollment_revoked, guard, wrap_err, or_err, >>=-ok, >>-ok,
  guard-ok, or_err-ok,
}
use openbao_attested_unseal.Broker.Subjects.{has_text}
use openbao_attested_unseal.Broker.ChallengeRows.{is_some}
use openbao_attested_unseal.Nodeevidence.Table.{NodeKey, find, store, remove}
use openbao_attested_unseal.Nodeevidence.Evidence.{provider_tpm2_quote}
use openbao_attested_unseal.Nodeevidence.Enrollment.{
  EnrollmentRequest, Enrollment, is_active_enrollment,
}
use openbao_attested_unseal.Broker.NodeRows.{
  NodeText, NodeTables, EnrollmentRow, EvidenceRow, PublisherRow, max_revision, revision_of,
  scan_row, scan_revoked, nullable_string, delete_publishers, insert_publishers,
}
use openbao_attested_unseal.Broker.NodeRows.Enroll.{enroll_rows, revoke_rows, revoke_row}
use openbao_attested_unseal.Broker.NodeRows.Evidence.{delete_rows}

-- What one operation does to the tables: it leaves them; it gives a node an enrollment of a higher
-- revision, in range where the one before is, and deletes its evidence; it stores evidence that the enrollment of its node matches; it
-- stores evidence of another provider than a TPM; or it deletes evidence.
pub data Effect : NodeTables → NodeTables → Type 0 where
  unchanged : (s : NodeTables) → Effect s s
  trust :
      (s : NodeTables) (k : NodeKey) (r : EnrollmentRow) (rows : List PublisherRow)
      → revision_of (find k s.enrollments) < r.revision
      → (revision_of (find k s.enrollments) ≤ max_revision → r.revision ≤ max_revision)
      → Effect s (record {
        clusters = s.clusters;
        enrollments = store k r s.enrollments;
        publishers = rows;
        evidence = remove k s.evidence;
      })
  verified :
      (s : NodeTables) (k : NodeKey) (r : EnrollmentRow) (e : EvidenceRow)
      → find k s.enrollments ≡ some r
      → r.revoked_at ≡ none
      → e.enrollment_revision ≡ some r.revision
      → e.node_uid ≡ nullable_string r.node_uid
      → e.provider ≡ r.provider
      → Effect s (record {
        clusters = s.clusters;
        enrollments = s.enrollments;
        publishers = s.publishers;
        evidence = store k e s.evidence;
      })
  unverified :
      (s : NodeTables) (k : NodeKey) (e : EvidenceRow)
      → e.provider ≢ provider_tpm2_quote
      → Effect s (record {
        clusters = s.clusters;
        enrollments = s.enrollments;
        publishers = s.publishers;
        evidence = store k e s.evidence;
      })
  pruned :
      (s : NodeTables) (ks : List NodeKey)
      → Effect s (record {
        clusters = s.clusters;
        enrollments = s.enrollments;
        publishers = s.publishers;
        evidence = delete_rows ks s.evidence;
      })

module _ (t : NodeText) where
  pub enroll_rows-Effect :
      (r : EnrollmentRequest) (s s' : NodeTables) (n : ℕ)
      → enroll_rows t r s ≡ ok (s', n)
      → Effect s s'
  unfolding enroll_rows
  enroll_rows-Effect r s s' n h =
      let k : NodeKey = record { cluster_id = r.cluster_id; node_name = r.node_name } in
      let (policy, _, h1) = >>=-ok (wrap_err (t.marshal_policy r.tpm_policy) other) _ h in
      let current = revision_of (find k s.enrollments) in
      let (below, h2) = >>-ok (guard (not (current == max_revision)) other) _ h1 in
      let apart = guard-ok (not (current == max_revision)) other below in
      let (_, h3) = >>-ok (guard (has_text r.cluster_id s.clusters) other) _ h2 in
      let (rows, _, h4) =
        >>=-ok
          (insert_publishers k r.publisher_certificate_hashes (delete_publishers k s.publishers)) _
          h3 in
      let row : EnrollmentRow = record {
        node_uid = r.node_uid;
        provider = r.provider;
        tpm_policy = policy;
        revision = revision_of (find k s.enrollments) + 1;
        enrolled_at = t.format_time r.enrolled_at;
        updated_at = t.format_time r.enrolled_at;
        revoked_at = none;
      } in
      let made : record {
        clusters = s.clusters;
        enrollments = store k row s.enrollments;
        publishers = rows;
        evidence = remove k s.evidence;
      }
          ≡ s' =
        cc in
      rw (← made) (trust s k row rows (omega arith) (λ before. ground (arith, apart, before)))

  scan_row-revision :
      (k : NodeKey) (r : EnrollmentRow) (e : Enrollment)
      → scan_row t k r ≡ ok e
      → e.revision ≡ r.revision
  unfolding scan_row
  scan_row-revision k r e h =
      let (_, h1) = >>-ok (guard (not (r.revision == 0)) other) _ h in
      let (_, _, h2) = >>=-ok (wrap_err (t.unmarshal_policy r.tpm_policy) other) _ h1 in
      let (_, _, h3) = >>=-ok (wrap_err (t.parse_time r.enrolled_at) other) _ h2 in
      let (_, _, h4) = >>=-ok (wrap_err (t.parse_time r.updated_at) other) _ h3 in
      let (_, _, h5) = >>=-ok (scan_revoked t r.revoked_at) _ h4 in cc

  pub revoke_rows-Effect :
      (k : NodeKey) (now : ℕ) (s s' : NodeTables) (e : Enrollment)
      → revoke_rows t k now s ≡ ok (s', e)
      → Effect s s'
  unfolding revoke_rows delete_rows
  revoke_rows-Effect k now s s' e h =
      let (r, held, h1) = >>=-ok (or_err (find k s.enrollments) enrollment_not_found) _ h in
      let (read, scanned, h2) = >>=-ok (scan_row t k r) _ h1 in
      let (_, h3) = >>-ok (guard (is_active_enrollment read) enrollment_revoked) _ h2 in
      let (below, h4) = >>-ok (guard (ltb read.revision max_revision) other) _ h3 in
      let apart = guard-ok (ltb read.revision max_revision) other below in
      let found = or_err-ok (find k s.enrollments) enrollment_not_found held in
      elim (Bool-cases (is_some r.revoked_at)) [
        | inl f ↦
            let made : record {
              clusters = s.clusters;
              enrollments = s.enrollments;
              publishers = s.publishers;
              evidence = remove k s.evidence;
            }
                ≡ s' =
              cc (rw f at h4) in
            rw (← made) (pruned s (k ∷ []))
        | inr f ↦
            let row = revoke_row t (read.revision + 1) now r in
            let made : record {
              clusters = s.clusters;
              enrollments = store k row s.enrollments;
              publishers = s.publishers;
              evidence = remove k s.evidence;
            }
                ≡ s' =
              cc (rw f at h4) in
            rw (← made) (
              trust s k row s.publishers
                (omega (arith, scan_row-revision k r read scanned, ap revision_of found))
                (λ _. ground (arith, apart)))
      ]
