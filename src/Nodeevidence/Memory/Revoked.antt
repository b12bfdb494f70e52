-- ===== src/Nodeevidence/Memory/Revoked.antt =====
-- internal/nodeevidence/enrollment.go: a node whose enrollment is revoked.
use openbao_attested_unseal.Prelude.{
  ◌≡◌, refl, ap, ℕ, false, Option, none, some, Bool-cases, inl, inr,
}
use openbao_attested_unseal.Prelude.Result.{Result, ok, err, enrollment_revoked, enrollment_changed}
use openbao_attested_unseal.Prelude.Text.{Text}
use openbao_attested_unseal.Tpm.Library.{TpmLibrary}
use openbao_attested_unseal.Broker.Policy.{NodeEvidence}
use openbao_attested_unseal.Nodeevidence.Table.{
  NodeKey, same_key_refl, find, find-store, find-remove,
}
use openbao_attested_unseal.Nodeevidence.Evidence.{
  EvidenceTable, evidence_key, trimmed_key, is_zero_time,
}
use openbao_attested_unseal.Nodeevidence.Enrollment.{Enrollment, is_active_enrollment}
use openbao_attested_unseal.Nodeevidence.Memory.{
  MemoryEnrollments, next_revision, delete_evidence, replace_enrollment, revoke_found,
  revoke_memory, put_enrolled_memory, active_memory,
}

-- The evidence of a node, none where there is no repository of evidence.
abbrev pub evidence_of : NodeKey → Option EvidenceTable → Option NodeEvidence
evidence_of k none = none
evidence_of k (some records) = find k records

evidence_of-delete_evidence :
    (k : NodeKey) (o : Option EvidenceTable) → evidence_of k (delete_evidence k o) ≡ none
evidence_of-delete_evidence k none = refl
evidence_of-delete_evidence k (some records) = rw (same_key_refl k) at (find-remove k k records)

-- A node whose enrollment is held as revoked.
record IsRevoked (k : NodeKey) (m : MemoryEnrollments) : Type 0 where
  held : Enrollment
  found : find k m.enrollments ≡ some held
  inactive : is_active_enrollment held ≡ false
  no_evidence : evidence_of k m.evidence ≡ none

revoke_found-IsRevoked :
    (k : NodeKey) (now : ℕ) (o : Option Enrollment) (m m' : MemoryEnrollments) (e : Enrollment)
    → is_zero_time now ≡ false
    → revoke_found k now o m ≡ (m', ok e)
    → IsRevoked k m'
revoke_found-IsRevoked k now none m m' e later h =
    absurd (cc (ap (λ (p : MemoryEnrollments × Result Enrollment). p.1) h))
revoke_found-IsRevoked k now (some d) m m' e later h =
    let revoked : Enrollment = record d {
      revision = next_revision d.revision;
      updated_at = now;
      revoked_at = now;
    } in
    elim (Bool-cases (is_active_enrollment d)) [
      | inr f ↦ absurd (cc (rw f at h))
      | inl f ↦
          let pair : (replace_enrollment k revoked m, ok revoked) ≡ (m', ok e) = rw f at h in
          let made : replace_enrollment k revoked m ≡ m' =
            ap (λ (p : MemoryEnrollments × Result Enrollment). p.0) pair in
          rw (← made) (record {
            held = revoked;
            found = rw (same_key_refl k) at (find-store k k revoked m.enrollments);
            inactive = later;
            no_evidence = evidence_of-delete_evidence k m.evidence;
          })
    ]

revoke_memory-IsRevoked :
    (cluster_id node_name : Text) (now : ℕ) (m m' : MemoryEnrollments) (e : Enrollment)
    → revoke_memory cluster_id node_name now m ≡ (m', ok e)
    → IsRevoked (trimmed_key cluster_id node_name) m'
unfolding revoke_memory
revoke_memory-IsRevoked cluster_id node_name now m m' e h = elim (Bool-cases (is_zero_time now)) [
  | inl f ↦ absurd (cc (rw f at h))
  | inr f ↦
      let k = trimmed_key cluster_id node_name in
      revoke_found-IsRevoked k now (find k m.enrollments) m m' e f (rw f at h)
]

module _ (x : TpmLibrary) where
  -- Once RevokeNodeEvidence of the process-local repository has revoked a node, its evidence is gone, the
  -- node has no active enrollment, no evidence of it is stored under any revision, and a second
  -- revocation changes nothing; the refusals name the revoked and the changed enrollment.
  pub revoke_memory-refused :
      (cluster_id node_name : Text) (now again : ℕ) (m m' : MemoryEnrollments) (e : Enrollment)
      (evidence : NodeEvidence) (revision : ℕ)
      → revoke_memory cluster_id node_name now m ≡ (m', ok e)
      → evidence_key evidence ≡ trimmed_key cluster_id node_name
      → is_zero_time again ≡ false
      → (evidence_of (trimmed_key cluster_id node_name) m'.evidence ≡ none)
        × (active_memory x cluster_id node_name m' ≡ err enrollment_revoked)
        × (put_enrolled_memory evidence revision m' ≡ err enrollment_changed)
        × (revoke_memory cluster_id node_name again m' ≡ (m', err enrollment_revoked))
  unfolding revoke_memory put_enrolled_memory active_memory
  revoke_memory-refused cluster_id node_name now again m m' e evidence revision h same later =
      let r = revoke_memory-IsRevoked cluster_id node_name now m m' e h in
      (
        r.no_evidence,
        rw r.found (rw r.inactive refl),
        rw same (rw r.found (rw r.inactive refl)),
        rw later (rw r.found (rw r.inactive refl)),
      )
