-- ===== src/Broker/NodeRows/Revisions.antt =====
-- internal/broker/sqlite.go: the revision of an enrollment closes the race between the verification of
-- evidence and a change of trust.
use openbao_attested_unseal.Prelude.{
  ◌≡◌, ◌⊎◌, ◌<◌, refl, sym, ap, ◌∙◌, inl, inr, some, arith, Bool-cases,
}
use openbao_attested_unseal.Prelude.Result.{ok}
use openbao_attested_unseal.Tpm.Library.{TpmLibrary}
use openbao_attested_unseal.Broker.Policy.{NodeEvidence}
use openbao_attested_unseal.Nodeevidence.Table.{
  NodeKey, same_key, same_key_iff, find, store, find-store,
}
use openbao_attested_unseal.Nodeevidence.Evidence.{evidence_key, normalize_evidence}
use openbao_attested_unseal.Broker.NodeRows.{NodeText, NodeTables, EnrollmentRow, revision_of}
use openbao_attested_unseal.Broker.NodeRows.Evidence.{put_enrolled_evidence}
use openbao_attested_unseal.Broker.NodeRows.Effects.{
  Effect, unchanged, trust, verified, unverified, pruned,
}
use openbao_attested_unseal.Broker.NodeRows.EvidenceEffects.{put_enrolled_evidence-Effect}
use openbao_attested_unseal.Broker.NodeRows.Steps.{Reach, here, next, Step-Effect}

-- The enrollment of a node is as it was, or it has a higher revision.
abbrev pub Advances : NodeKey → NodeTables → NodeTables → Type 0
Advances k s s' =
    (find k s'.enrollments ≡ find k s.enrollments)
    ⊎ (revision_of (find k s.enrollments) < revision_of (find k s'.enrollments))

Effect-Advances : {s s' : NodeTables} (k : NodeKey) → Effect s s' → Advances k s s'
Effect-Advances k (unchanged s) = inl refl
Effect-Advances k (trust s j r rows newer bounded) = elim (Bool-cases (same_key j k)) [
  | inl f ↦
      let same : j ≡ k = (same_key_iff j k).0 f in
      let stored : find k (store j r s.enrollments) ≡ some r =
        rw f at (find-store j k r s.enrollments) in
      inr (
        omega
          (arith, ap revision_of stored, ap (λ i. revision_of (find i s.enrollments)) same, newer))
  | inr f ↦ inl (rw f at (find-store j k r s.enrollments))
]
Effect-Advances k (verified s j r e found live revision uid provider) = inl refl
Effect-Advances k (unverified s j e foreign) = inl refl
Effect-Advances k (pruned s ks) = inl refl

Advances-trans :
    (k : NodeKey) (s u v : NodeTables) → Advances k s u → Advances k u v → Advances k s v
Advances-trans k s u v (inl e) (inl f) = inl (f ∙ e)
Advances-trans k s u v (inl e) (inr f) = inr (omega (arith, ap revision_of e))
Advances-trans k s u v (inr e) (inl f) = inr (omega (arith, ap revision_of f))
Advances-trans k s u v (inr e) (inr f) = inr (omega arith)

module _ (x : TpmLibrary) (t : NodeText) where
  Reach-Advances : (k : NodeKey) (s s' : NodeTables) → Reach x t s s' → Advances k s s'
  Reach-Advances k s s' here = inl refl
  Reach-Advances k s s' (next {u} steps step) =
      Advances-trans k s u s' (Reach-Advances k s u steps)
        (Effect-Advances k (Step-Effect x t step))

  -- Evidence that was verified under the enrollment of its node at some tables, and that is stored with
  -- the revision of that enrollment after any operations of the broker, is stored only if the enrollment
  -- of the node is still the very same row.
  pub put_enrolled_evidence-unchanged :
      (s s' s'' : NodeTables) (evidence e : NodeEvidence) (row : EnrollmentRow)
      → normalize_evidence evidence ≡ ok e
      → find (evidence_key e) s.enrollments ≡ some row
      → Reach x t s s'
      → put_enrolled_evidence t evidence row.revision s' ≡ ok s''
      → find (evidence_key e) s'.enrollments ≡ some row
  put_enrolled_evidence-unchanged s s' s'' evidence e row normal enrolled steps stored =
      let (n, r, normal', found, same, _) =
        put_enrolled_evidence-Effect t evidence row.revision s' s'' stored in
      let equal : n ≡ e = cc (normal, normal') in
      let found' : find (evidence_key e) s'.enrollments ≡ some r =
        ap (λ (i : NodeEvidence). find (evidence_key i) s'.enrollments) (sym equal) ∙ found in
      elim (Reach-Advances (evidence_key e) s s' steps) [
        | inl kept ↦ kept ∙ enrolled
        | inr later ↦
            absurd (omega (arith, later, ap revision_of found', ap revision_of enrolled, same))
      ]
