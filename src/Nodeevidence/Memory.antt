-- ===== src/Nodeevidence/Memory.antt =====
-- internal/nodeevidence/enrollment.go: the process-local repository of enrollments, over the process-local
-- repository of evidence, which may be nil. A revision is a uint64.
pub mod Revoked
use openbao_attested_unseal.Prelude.{
  ℕ, ◌+◌, ◌%◌, ◌^◌, Bool, true, false, not, is_nil, ◌==◌, ◌&&◌, ◌||◌, Option, none, some, List, [],
  ◌∷◌, if◌then◌else◌,
}
use openbao_attested_unseal.Prelude.Result.{
  Result, ok, err, enrollment_not_found, enrollment_revoked, enrollment_changed, invalid_enrollment,
  ◌>>=◌, ◌>>◌, guard, or_err,
}
use openbao_attested_unseal.Prelude.Text.{Text, text_eq, is_empty}
use openbao_attested_unseal.Prelude.Trim.{trim_space}
use openbao_attested_unseal.Prelude.Order.{text_leb, sort}
use openbao_attested_unseal.Tpm.Library.{TpmLibrary}
use openbao_attested_unseal.Broker.Policy.{NodeEvidence}
use openbao_attested_unseal.Nodeevidence.Table.{NodeKey, find, store, remove}
use openbao_attested_unseal.Nodeevidence.Evidence.{
  EvidenceTable, evidence_key, trimmed_key, is_zero_time, listed, put_node_evidence,
}
use openbao_attested_unseal.Nodeevidence.Enrollment.{
  EnrollmentRequest, Enrollment, is_active_enrollment, normalize_enrollment_request,
  normalize_enrollment, enrollment_of,
}

-- MemoryEnrollmentRepository
pub record MemoryEnrollments : Type 0 where
  pub enrollments : List (NodeKey × Enrollment)
  pub evidence : Option EvidenceTable

-- revision + 1
abbrev pub next_revision : ℕ → ℕ
next_revision revision = (revision + 1) % 2 ^ 64

abbrev pub revision_after : Option Enrollment → ℕ
revision_after none = 1
revision_after (some e) = next_revision e.revision

-- deleteEvidenceLocked
abbrev pub delete_evidence : NodeKey → Option EvidenceTable → Option EvidenceTable
delete_evidence k none = none
delete_evidence k (some records) = some (remove k records)

-- r.enrollments[key] = enrollment, and deleteEvidenceLocked
abbrev pub replace_enrollment : NodeKey → Enrollment → MemoryEnrollments → MemoryEnrollments
replace_enrollment k e m = record {
  enrollments = store k e m.enrollments;
  evidence = delete_evidence k m.evidence;
}

-- RevokeNodeEvidence, on the enrollment of the node
abbrev pub revoke_found :
    NodeKey → ℕ → Option Enrollment → MemoryEnrollments → MemoryEnrollments × Result Enrollment
revoke_found k now none m = (m, err enrollment_not_found)
revoke_found k now (some e) m =
    let revoked : Enrollment = record e {
      revision = next_revision e.revision;
      updated_at = now;
      revoked_at = now;
    } in
    if is_active_enrollment e
    then (replace_enrollment k revoked m, ok revoked)
    else (m, err enrollment_revoked)

-- MemoryEnrollmentRepository.RevokeNodeEvidence
unfoldable pub revoke_memory :
    Text → Text → ℕ → MemoryEnrollments → MemoryEnrollments × Result Enrollment
revoke_memory cluster_id node_name now m =
    let k = trimmed_key cluster_id node_name in
    if is_zero_time now
    then (m, err invalid_enrollment)
    else revoke_found k now (find k m.enrollments) m

-- The test of PutEnrolledNodeEvidence.
abbrev pub is_current : ℕ → Option Enrollment → Bool
is_current revision none = false
is_current revision (some e) = is_active_enrollment e && e.revision == revision

-- MemoryEnrollmentRepository.PutEnrolledNodeEvidence
unfoldable pub put_enrolled_memory : NodeEvidence → ℕ → MemoryEnrollments → Result MemoryEnrollments
put_enrolled_memory evidence revision m = do
  guard (is_current revision (find (evidence_key evidence) m.enrollments)) enrollment_changed
  records ← or_err m.evidence invalid_enrollment
  records' ← put_node_evidence evidence records
  ok (record m { evidence = some records' })

module _ (x : TpmLibrary) where
  -- MemoryEnrollmentRepository.EnrollNodeEvidence
  unfoldable pub enroll_memory :
      EnrollmentRequest → MemoryEnrollments → Result (MemoryEnrollments × Enrollment)
  enroll_memory request m = do
    r ← normalize_enrollment_request x request
    let k : NodeKey = record { cluster_id = r.cluster_id; node_name = r.node_name }
    let e = enrollment_of r (revision_after (find k m.enrollments)) r.enrolled_at 0
    ok (replace_enrollment k e m, e)

  -- MemoryEnrollmentRepository.ActiveNodeEvidenceEnrollment
  unfoldable pub active_memory : Text → Text → MemoryEnrollments → Result Enrollment
  active_memory cluster_id node_name m = do
    e ← or_err (find (trimmed_key cluster_id node_name) m.enrollments) enrollment_not_found
    guard (is_active_enrollment e) enrollment_revoked
    normalize_enrollment x e

  -- The loop of ListNodeEvidenceEnrollments, in the order of the iteration.
  unfoldable pub listed_enrollments :
      Text → Text → Bool → List (NodeKey × Enrollment) → Result (List Enrollment)
  listed_enrollments cluster_id node_name include_revoked [] = ok []
  listed_enrollments cluster_id node_name include_revoked ((k, e) ∷ enrollments) =
      let rest = listed_enrollments cluster_id node_name include_revoked enrollments in
      if listed cluster_id node_name k && (include_revoked || is_active_enrollment e)
      then (do n ← normalize_enrollment x e; others ← rest; ok (n ∷ others))
      else rest

  abbrev by_node_name : Enrollment → Enrollment → Bool
  by_node_name d e = text_leb d.node_name e.node_name

  -- MemoryEnrollmentRepository.ListNodeEvidenceEnrollments
  unfoldable pub list_memory : Text → Text → Bool → MemoryEnrollments → Result (List Enrollment)
  list_memory cluster_id node_name include_revoked m = do
    out ←
        listed_enrollments (trim_space cluster_id) (trim_space node_name) include_revoked
          m.enrollments
    guard (not (is_nil out)) enrollment_not_found
    ok (sort by_node_name out)
