-- ===== src/Broker/NodeRows/Query.antt =====
-- internal/broker/sqlite.go: the queries of the enrollments and of the node evidence of a cluster.
use openbao_attested_unseal.Prelude.{Bool, not, is_nil, ◌&&◌, ◌||◌, List, [], ◌∷◌, if◌then◌else◌}
use openbao_attested_unseal.Prelude.Result.{
  Result, ok, enrollment_not_found, node_evidence_not_found, ◌>>=◌, ◌>>◌, guard,
}
use openbao_attested_unseal.Prelude.Text.{Text, text_eq, is_empty}
use openbao_attested_unseal.Prelude.Trim.{trim_space}
use openbao_attested_unseal.Prelude.Order.{text_leb, sort}
use openbao_attested_unseal.Tpm.Library.{TpmLibrary}
use openbao_attested_unseal.Broker.Policy.{NodeEvidence}
use openbao_attested_unseal.Broker.ChallengeRows.{is_some}
use openbao_attested_unseal.Nodeevidence.Table.{NodeKey}
use openbao_attested_unseal.Nodeevidence.Enrollment.{Enrollment, normalize_enrollment}
use openbao_attested_unseal.Broker.NodeRows.{
  EnrollmentRow, PublisherRow, EvidenceRow, NodeTables, NodeText, publisher_hashes, scan_row,
  scan_evidence,
}

-- WHERE cluster_id = ? AND (? = '' OR node_name = ?) AND (? OR revoked_at IS NULL)
abbrev is_listed : Text → Text → Bool → NodeKey → EnrollmentRow → Bool
is_listed cluster_id node_name include_revoked k r =
    text_eq k.cluster_id cluster_id
    && ((is_empty node_name || text_eq k.node_name node_name)
        && (include_revoked || not (is_some r.revoked_at)))

unfoldable pub select_enrollments :
    Text → Text → Bool → List (NodeKey × EnrollmentRow) → List (NodeKey × EnrollmentRow)
select_enrollments cluster_id node_name include_revoked [] = []
select_enrollments cluster_id node_name include_revoked ((k, r) ∷ rows) =
    let rest = select_enrollments cluster_id node_name include_revoked rows in
    if is_listed cluster_id node_name include_revoked k r then (k, r) ∷ rest else rest

-- ORDER BY node_name
abbrev by_node_name : NodeKey × EnrollmentRow → NodeKey × EnrollmentRow → Bool
by_node_name (j, _) (k, _) = text_leb j.node_name k.node_name

module _ (t : NodeText) where
  unfoldable pub scan_enrollments : List (NodeKey × EnrollmentRow) → Result (List Enrollment)
  scan_enrollments [] = ok []
  scan_enrollments ((k, r) ∷ rows) = do
    e ← scan_row t k r
    rest ← scan_enrollments rows
    ok (e ∷ rest)

module _ (x : TpmLibrary) (publishers : List PublisherRow) where
  -- The loop that reads the publishers of each enrollment and normalises it.
  unfoldable pub complete_enrollments : List Enrollment → Result (List Enrollment)
  complete_enrollments [] = ok []
  complete_enrollments (e ∷ es) = do
    let k : NodeKey = record { cluster_id = e.cluster_id; node_name = e.node_name }
    complete ←
        normalize_enrollment x
          (record e { publisher_certificate_hashes = publisher_hashes k publishers })
    rest ← complete_enrollments es
    ok (complete ∷ rest)

module _ (x : TpmLibrary) (t : NodeText) where
  -- SQLiteStore.ListNodeEvidenceEnrollments
  unfoldable pub list_enrollments : Text → Text → Bool → NodeTables → Result (List Enrollment)
  list_enrollments cluster_id node_name include_revoked s = do
    let rows =
        select_enrollments (trim_space cluster_id) (trim_space node_name) include_revoked
          s.enrollments
    enrollments ← scan_enrollments t (sort by_node_name rows)
    guard (not (is_nil enrollments)) enrollment_not_found
    complete_enrollments x s.publishers enrollments

-- The WHERE clause of ListNodeEvidence, with a node name and without one.
unfoldable pub select_evidence_rows :
    Text → Text → List (NodeKey × EvidenceRow) → List (NodeKey × EvidenceRow)
select_evidence_rows cluster_id node_name [] = []
select_evidence_rows cluster_id node_name ((k, r) ∷ rows) =
    let rest = select_evidence_rows cluster_id node_name rows in
    if text_eq k.cluster_id cluster_id && (is_empty node_name || text_eq k.node_name node_name)
    then (k, r) ∷ rest
    else rest

abbrev by_evidence_name : NodeKey × EvidenceRow → NodeKey × EvidenceRow → Bool
by_evidence_name (j, _) (k, _) = text_leb j.node_name k.node_name

module _ (t : NodeText) where
  -- The loop over the rows of ListNodeEvidence.
  unfoldable pub scan_all_evidence : List (NodeKey × EvidenceRow) → Result (List NodeEvidence)
  scan_all_evidence [] = ok []
  scan_all_evidence ((k, r) ∷ rows) = do
    e ← scan_evidence t k r
    rest ← scan_all_evidence rows
    ok (e ∷ rest)

  -- SQLiteStore.ListNodeEvidence
  unfoldable pub list_evidence : Text → Text → NodeTables → Result (List NodeEvidence)
  list_evidence cluster_id node_name s = do
    let rows = select_evidence_rows (trim_space cluster_id) (trim_space node_name) s.evidence
    records ← scan_all_evidence (sort by_evidence_name rows)
    guard (not (is_nil records)) node_evidence_not_found
    ok records
