-- ===== src/Broker/NodeRows/Trusted.antt =====
-- internal/broker/sqlite.go: TPM evidence is kept only while the enrollment that it was verified by is
-- in force.
use openbao_attested_unseal.Prelude.{
  ◌≡◌, sym, ap, ◌∙◌, inl, inr, false, none, some, List, [], ◌∷◌, Bool-cases,
}
use openbao_attested_unseal.Tpm.Library.{TpmLibrary}
use openbao_attested_unseal.Nodeevidence.Table.{
  NodeKey, same_key, same_key_iff, find, store, remove, find-store, find-remove,
}
use openbao_attested_unseal.Nodeevidence.Evidence.{provider_tpm2_quote}
use openbao_attested_unseal.Broker.NodeRows.{
  NodeText, NodeTables, EnrollmentRow, EvidenceRow, nullable_string,
}
use openbao_attested_unseal.Broker.NodeRows.Evidence.{delete_rows}
use openbao_attested_unseal.Broker.NodeRows.Effects.{
  Effect, unchanged, trust, verified, unverified, pruned,
}
use openbao_attested_unseal.Broker.NodeRows.Steps.{Reach, here, next, Step-Effect}

-- The enrollment that a row of TPM evidence rests on: it is not revoked, the evidence has its revision,
-- and names its node UID.
pub record RestsOn (enrollments : List (NodeKey × EnrollmentRow)) (k : NodeKey) (e : EvidenceRow)
    : Type 0 where
  pub row : EnrollmentRow
  pub enrolled : find k enrollments ≡ some row
  pub in_force : row.revoked_at ≡ none
  pub current : e.enrollment_revision ≡ some row.revision
  pub same_uid : e.node_uid ≡ nullable_string row.node_uid

abbrev pub IsTrusted : NodeTables → Type 0
IsTrusted s =
    (k : NodeKey) (e : EvidenceRow)
    → find k s.evidence ≡ some e
    → e.provider ≡ provider_tpm2_quote
    → RestsOn s.enrollments k e

find-delete_rows :
    (ks : List NodeKey) (rows : List (NodeKey × EvidenceRow)) (k : NodeKey) (e : EvidenceRow)
    → find k (delete_rows ks rows) ≡ some e
    → find k rows ≡ some e
unfolding delete_rows
find-delete_rows [] rows k e h = h
find-delete_rows (j ∷ ks) rows k e h =
    let left : find k (remove j rows) ≡ some e = find-delete_rows ks (remove j rows) k e h in
    elim (Bool-cases (same_key j k)) [
      | inl f ↦ cc (left, rw f at (find-remove j k rows))
      | inr f ↦ sym (rw f at (find-remove j k rows)) ∙ left
    ]

-- Under another key the tables give what they gave.
find_elsewhere :
    (s : NodeTables) (j k : NodeKey) (r : EnrollmentRow) (e : EvidenceRow)
    → IsTrusted s
    → same_key j k ≡ false
    → find k s.evidence ≡ some e
    → e.provider ≡ provider_tpm2_quote
    → RestsOn (store j r s.enrollments) k e
find_elsewhere s j k r e inv apart held provider =
    let rests = inv k e held provider in
    let still : find k (store j r s.enrollments) ≡ find k s.enrollments =
      rw apart at (find-store j k r s.enrollments) in
    record {
      row = rests.row;
      enrolled = still ∙ rests.enrolled;
      in_force = rests.in_force;
      current = rests.current;
      same_uid = rests.same_uid;
    }

pub Effect-IsTrusted : {s s' : NodeTables} → Effect s s' → IsTrusted s → IsTrusted s'
Effect-IsTrusted (unchanged s) inv k e h p = inv k e h p
Effect-IsTrusted (trust s j r rows newer bounded) inv k e h p = elim (Bool-cases (same_key j k)) [
  | inl f ↦ cc (h, rw f at (find-remove j k s.evidence))
  | inr f ↦ find_elsewhere s j k r e inv f (sym (rw f at (find-remove j k s.evidence)) ∙ h) p
]
Effect-IsTrusted (verified s j r new found live revision uid provider) inv k e h p =
    elim (Bool-cases (same_key j k)) [
      | inl f ↦
          let same : j ≡ k = (same_key_iff j k).0 f in
          let stored : new ≡ e = cc (h, rw f at (find-store j k new s.evidence)) in
          record {
            row = r;
            enrolled = ap (λ i. find i s.enrollments) (sym same) ∙ found;
            in_force = live;
            current = ap (λ (n : EvidenceRow). n.enrollment_revision) (sym stored) ∙ revision;
            same_uid = ap (λ (n : EvidenceRow). n.node_uid) (sym stored) ∙ uid;
          }
      | inr f ↦ inv k e (sym (rw f at (find-store j k new s.evidence)) ∙ h) p
    ]
Effect-IsTrusted (unverified s j new foreign) inv k e h p = elim (Bool-cases (same_key j k)) [
  | inl f ↦
      let stored : new ≡ e = cc (h, rw f at (find-store j k new s.evidence)) in
      absurd (foreign (ap (λ (n : EvidenceRow). n.provider) stored ∙ p))
  | inr f ↦ inv k e (sym (rw f at (find-store j k new s.evidence)) ∙ h) p
]
Effect-IsTrusted (pruned s ks) inv k e h p = inv k e (find-delete_rows ks s.evidence k e h) p

module _ (x : TpmLibrary) (t : NodeText) where
  -- From tables where every row of TPM evidence rests on the enrollment of its node, which is not
  -- revoked, has the revision of the evidence and names its node UID, the operations on node
  -- enrollments and evidence lead only to such tables.
  pub Reach-IsTrusted : (s s' : NodeTables) → IsTrusted s → Reach x t s s' → IsTrusted s'
  Reach-IsTrusted s s' inv here = inv
  Reach-IsTrusted s s' inv (next {u} steps step) =
      Effect-IsTrusted (Step-Effect x t step) (Reach-IsTrusted s u inv steps)
