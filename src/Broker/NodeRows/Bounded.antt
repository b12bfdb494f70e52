-- ===== src/Broker/NodeRows/Bounded.antt =====
-- internal/broker/sqlite.go: the revisions of enrollments are in the range of the database's integers.
use openbao_attested_unseal.Prelude.{
  ◌≡◌, sym, ◌∙◌, inl, inr, ◌<◌, ◌≤◌, some, Bool-cases, Option-cases, arith,
}
use openbao_attested_unseal.Tpm.Library.{TpmLibrary}
use openbao_attested_unseal.Nodeevidence.Table.{NodeKey, same_key, find, find-store}
use openbao_attested_unseal.Broker.NodeRows.{
  NodeText, NodeTables, EnrollmentRow, max_revision, revision_of,
}
use openbao_attested_unseal.Broker.NodeRows.Effects.{
  Effect, unchanged, trust, verified, unverified, pruned,
}
use openbao_attested_unseal.Broker.NodeRows.Steps.{Reach, here, next, Step-Effect}

-- Every enrollment has a revision from 1 to 2^63 - 1.
abbrev pub IsBounded : NodeTables → Type 0
IsBounded s =
    (k : NodeKey) (r : EnrollmentRow)
    → find k s.enrollments ≡ some r
    → (0 < r.revision) × (r.revision ≤ max_revision)

revision_of-IsBounded :
    (s : NodeTables) (k : NodeKey) → IsBounded s → revision_of (find k s.enrollments) ≤ max_revision
revision_of-IsBounded s k inv = elim (Option-cases (find k s.enrollments)) [
  | inl f ↦ rw f (omega arith)
  | inr (r, f) ↦ rw f (inv k r f).1
]

Effect-IsBounded : {s s' : NodeTables} → Effect s s' → IsBounded s → IsBounded s'
Effect-IsBounded (unchanged s) inv k row h = inv k row h
Effect-IsBounded (verified s j r e found live revision uid provider) inv k row h = inv k row h
Effect-IsBounded (unverified s j e provider) inv k row h = inv k row h
Effect-IsBounded (pruned s ks) inv k row h = inv k row h
Effect-IsBounded (trust s j new rows newer bounded) inv k r h = elim (Bool-cases (same_key j k)) [
  | inl f ↦
      let stored : some new ≡ some r = sym (rw f at (find-store j k new s.enrollments)) ∙ h in
      let same : new ≡ r = cc stored in
      rw (← same) (omega (arith, newer), bounded (revision_of-IsBounded s j inv))
  | inr f ↦ inv k r (sym (rw f at (find-store j k new s.enrollments)) ∙ h)
]

module _ (x : TpmLibrary) (t : NodeText) where
  -- From tables where every enrollment has a revision from 1 to 2^63 - 1, which is what the database
  -- holds in an integer, the operations on node enrollments and evidence lead only to such tables.
  pub Reach-IsBounded : (s s' : NodeTables) → IsBounded s → Reach x t s s' → IsBounded s'
  Reach-IsBounded s s' inv here = inv
  Reach-IsBounded s s' inv (next {u} steps step) =
      Effect-IsBounded (Step-Effect x t step) (Reach-IsBounded s u inv steps)
