-- ===== src/Broker/NodeRows/Evidence.antt =====
-- internal/broker/sqlite.go: the operations on node evidence.
use openbao_attested_unseal.Prelude.{
  ℕ, Bool, not, ltb, ◌==◌, ◌&&◌, ◌||◌, Option, none, some, List, [], ◌∷◌, if◌then◌else◌,
}
use openbao_attested_unseal.Prelude.Result.{
  Result, ok, other, enrollment_changed, node_evidence_not_found, node_evidence_stale, ◌>>=◌, ◌>>◌,
  guard, wrap_err, or_err,
}
use openbao_attested_unseal.Prelude.Text.{Text, text_eq}
use openbao_attested_unseal.Prelude.Trim.{trim_space}
use openbao_attested_unseal.Broker.Policy.{NodeEvidence}
use openbao_attested_unseal.Broker.Subjects.{has_text}
use openbao_attested_unseal.Broker.ChallengeRows.{is_some}
use openbao_attested_unseal.Nodeevidence.Table.{NodeKey, find, store, remove}
use openbao_attested_unseal.Nodeevidence.Evidence.{
  provider_tpm2_quote, or_now, evidence_key, trimmed_key, normalize_evidence,
}
use openbao_attested_unseal.Broker.NodeRows.{
  EnrollmentRow, EvidenceRow, NodeTables, NodeText, max_revision, nullable_string, scan_evidence,
}

-- The loop of DELETE statements of PruneNodeEvidence.
unfoldable pub delete_rows :
    List NodeKey → List (NodeKey × EvidenceRow) → List (NodeKey × EvidenceRow)
delete_rows [] rows = rows
delete_rows (k ∷ ks) rows = delete_rows ks (remove k rows)

module _ (t : NodeText) where
  -- upsertNodeEvidence
  unfoldable pub upsert_evidence : NodeEvidence → Option ℕ → NodeTables → Result NodeTables
  upsert_evidence e revision s = do
    guard (has_text e.cluster_id s.clusters) other
    ok (record s {
      evidence =
          store (evidence_key e)
            (record {
              node_uid = nullable_string e.node_uid;
              provider = e.provider;
              evidence_hash = e.evidence_hash;
              collected_at = t.format_time e.collected_at;
              expires_at = t.format_time e.expires_at;
              enrollment_revision = revision;
            })
            s.evidence;
    })

  -- The check of PutEnrolledNodeEvidence on the row that it reads.
  unfoldable pub matches_enrollment : NodeEvidence → ℕ → EnrollmentRow → Bool
  matches_enrollment e revision r =
      not (r.revision == 0)
      && (not (is_some r.revoked_at)
          && (r.revision == revision
              && (text_eq r.node_uid e.node_uid && text_eq r.provider e.provider)))

  -- PutEnrolledNodeEvidence
  unfoldable pub put_enrolled_evidence : NodeEvidence → ℕ → NodeTables → Result NodeTables
  put_enrolled_evidence evidence revision s = do
    e ← normalize_evidence evidence
    guard (not (revision == 0 || ltb max_revision revision)) enrollment_changed
    r ← or_err (find (evidence_key e) s.enrollments) enrollment_changed
    guard (matches_enrollment e revision r) enrollment_changed
    upsert_evidence e (some r.revision) s

  -- SQLiteStore.PutNodeEvidence
  unfoldable pub put_evidence : NodeEvidence → NodeTables → Result NodeTables
  put_evidence evidence s = do
    e ← normalize_evidence evidence
    guard (not (text_eq e.provider provider_tpm2_quote)) enrollment_changed
    upsert_evidence e none s

  -- SQLiteStore.NodeEvidence
  unfoldable pub load_evidence : Text → Text → NodeTables → Result NodeEvidence
  load_evidence cluster_id node_name s = do
    let k = trimmed_key cluster_id node_name
    r ← or_err (find k s.evidence) node_evidence_not_found
    scan_evidence t k r

  -- SQLiteStore.FreshNodeEvidence
  unfoldable pub fresh_evidence : ℕ → Text → Text → ℕ → NodeTables → Result NodeEvidence
  fresh_evidence clock cluster_id node_name now s = do
    e ← load_evidence cluster_id node_name s
    guard (ltb (or_now clock now) e.expires_at) node_evidence_stale
    ok e

  -- The rows of PruneNodeEvidence that have expired.
  unfoldable pub expired_rows : Text → ℕ → List (NodeKey × EvidenceRow) → Result (List NodeKey)
  expired_rows cluster_id cutoff [] = ok []
  expired_rows cluster_id cutoff ((k, r) ∷ rows) =
      let rest = expired_rows cluster_id cutoff rows in
      if text_eq k.cluster_id cluster_id
      then (do
        expires_at ← wrap_err (t.parse_time r.expires_at) other
        expired ← rest
        ok (if ltb expires_at cutoff then k ∷ expired else expired))
      else rest

  -- SQLiteStore.PruneNodeEvidence, after its test for the zero time
  unfoldable pub prune_before : Text → ℕ → NodeTables → Result NodeTables
  prune_before cluster_id cutoff s = do
    expired ← expired_rows (trim_space cluster_id) cutoff s.evidence
    ok (record s { evidence = delete_rows expired s.evidence })

  -- SQLiteStore.PruneNodeEvidence
  unfoldable pub prune_evidence : ℕ → Text → ℕ → NodeTables → Result NodeTables
  prune_evidence clock cluster_id expired_before s =
      prune_before cluster_id (or_now clock expired_before) s
