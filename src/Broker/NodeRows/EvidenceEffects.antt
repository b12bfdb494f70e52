-- ===== src/Broker/NodeRows/EvidenceEffects.antt =====
-- internal/broker/sqlite.go: what the operations that store node evidence do to the tables.
use openbao_attested_unseal.Prelude.{
  ℕ, ◌≡◌, refl, sym, ap, true, false, not, ◌||◌, Option, none, some, arith, ltb, ◌==◌,
}
use openbao_attested_unseal.Prelude.Result.{
  ok, other, enrollment_changed, guard, or_err, >>=-ok, >>-ok, guard-ok, or_err-ok,
}
use openbao_attested_unseal.Prelude.Text.{Text, text_eq, text_eq_iff}
use openbao_attested_unseal.Broker.Policy.{NodeEvidence}
use openbao_attested_unseal.Broker.Subjects.{has_text}
use openbao_attested_unseal.Broker.ChallengeRows.{is_some}
use openbao_attested_unseal.Nodeevidence.Table.{find, store}
use openbao_attested_unseal.Nodeevidence.Evidence.{
  provider_tpm2_quote, evidence_key, normalize_evidence,
}
use openbao_attested_unseal.Broker.NodeRows.{
  NodeText, NodeTables, EnrollmentRow, EvidenceRow, max_revision, nullable_string,
}
use openbao_attested_unseal.Broker.NodeRows.Evidence.{
  upsert_evidence, matches_enrollment, put_enrolled_evidence, put_evidence,
}
use openbao_attested_unseal.Broker.NodeRows.Effects.{Effect, verified, unverified}

is_some-none : (o : Option Text) → is_some o ≡ false → o ≡ none
is_some-none none h = refl
is_some-none (some t) h = cc

module _ (t : NodeText) where
  pub put_enrolled_evidence-Effect :
      (evidence : NodeEvidence) (revision : ℕ) (s s' : NodeTables)
      → put_enrolled_evidence t evidence revision s ≡ ok s'
      → (e : NodeEvidence) × (r : EnrollmentRow) × (normalize_evidence evidence ≡ ok e)
        × (find (evidence_key e) s.enrollments ≡ some r)
        × (r.revision ≡ revision)
        × Effect s s'
  unfolding put_enrolled_evidence upsert_evidence matches_enrollment
  put_enrolled_evidence-Effect evidence revision s s' h =
      let (e, normal, h1) = >>=-ok (normalize_evidence evidence) _ h in
      let (_, h2) =
        >>-ok (guard (not (revision == 0 || ltb max_revision revision)) enrollment_changed) _ h1 in
      let (r, held, h3) =
        >>=-ok (or_err (find (evidence_key e) s.enrollments) enrollment_changed) _ h2 in
      let (matched, h4) =
        >>-ok (guard (matches_enrollment t e revision r) enrollment_changed) _ h3 in
      let (_, h5) = >>-ok (guard (has_text e.cluster_id s.clusters) other) _ h4 in
      let found = or_err-ok (find (evidence_key e) s.enrollments) enrollment_changed held in
      let fits : matches_enrollment t e revision r ≡ true =
        guard-ok (matches_enrollment t e revision r) enrollment_changed matched in
      let same : r.revision ≡ revision = ground arith in
      let live : is_some r.revoked_at ≡ false = ground arith in
      let uid : r.node_uid ≡ e.node_uid = ground (arith, text_eq_iff r.node_uid e.node_uid) in
      let provider : r.provider ≡ e.provider = ground (arith, text_eq_iff r.provider e.provider) in
      let row : EvidenceRow = record {
        node_uid = nullable_string e.node_uid;
        provider = e.provider;
        evidence_hash = e.evidence_hash;
        collected_at = t.format_time e.collected_at;
        expires_at = t.format_time e.expires_at;
        enrollment_revision = some r.revision;
      } in
      let made : record {
        clusters = s.clusters;
        enrollments = s.enrollments;
        publishers = s.publishers;
        evidence = store (evidence_key e) row s.evidence;
      }
          ≡ s' =
        cc in
      (
        e,
        r,
        normal,
        found,
        same,
        rw (← made) (
            verified s (evidence_key e) r row found (is_some-none r.revoked_at live) refl
              (ap nullable_string (sym uid)) (sym provider)),
      )

  pub put_evidence-Effect :
      (evidence : NodeEvidence) (s s' : NodeTables)
      → put_evidence t evidence s ≡ ok s'
      → Effect s s'
  unfolding put_evidence upsert_evidence
  put_evidence-Effect evidence s s' h =
      let (e, normal, h1) = >>=-ok (normalize_evidence evidence) _ h in
      let (other_provider, h2) =
        >>-ok (guard (not (text_eq e.provider provider_tpm2_quote)) enrollment_changed) _ h1 in
      let (_, h3) = >>-ok (guard (has_text e.cluster_id s.clusters) other) _ h2 in
      let row : EvidenceRow = record {
        node_uid = nullable_string e.node_uid;
        provider = e.provider;
        evidence_hash = e.evidence_hash;
        collected_at = t.format_time e.collected_at;
        expires_at = t.format_time e.expires_at;
        enrollment_revision = none;
      } in
      let made : record {
        clusters = s.clusters;
        enrollments = s.enrollments;
        publishers = s.publishers;
        evidence = store (evidence_key e) row s.evidence;
      }
          ≡ s' =
        cc in
      rw (← made) (
        unverified s (evidence_key e) row (λ same. ground (
          arith,
          (text_eq_iff e.provider provider_tpm2_quote).1 same,
          guard-ok (not (text_eq e.provider provider_tpm2_quote)) enrollment_changed other_provider,
        )))
