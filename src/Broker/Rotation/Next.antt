-- ===== src/Broker/Rotation/Next.antt =====
-- internal/broker/sqlite.go: NextRotationKeyRef and RotationVerifications, and a rotation from the
-- reference of the new version to its activation.
use openbao_attested_unseal.Prelude.{
  ℕ, ◌≤◌, ◌≡◌, refl, sym, ap, ◌∙◌, Bool, true, none, some, List, [], ◌∷◌, ◌++◌, arith, inl, inr,
  Bool-cases, Option-cases, if◌then◌else◌, ◌==◌, ==_iff,
}
use openbao_attested_unseal.Prelude.Result.{Result, ok, ◌>>=◌, >>=-ok}
use openbao_attested_unseal.Prelude.Text.{Text, text_eq, text_eq_refl}
use openbao_attested_unseal.Prelude.Order.{text_leb, sort}
use openbao_attested_unseal.Keyring.Key.{KeyRef, active, pending}
use openbao_attested_unseal.Keyring.Ring.{same_ref}
use openbao_attested_unseal.Keyring.Ring.Select.{same_ref_iff}
use openbao_attested_unseal.Keyprotection.{ProtectedKey}
use openbao_attested_unseal.Broker.Keys.{
  find_key, query_max, next_rotation_versions, insert_key, with_status,
}
use openbao_attested_unseal.Broker.Rotation.{
  RotationOperation, RotationTables, RotationStartRequest, RotationVerification,
  validate_rotation_start, ensure_no_started_rotation, find_operation, query_rotation_operation,
  insert_operation, started_operation, start_rotation, activate_rotation, activate_operation,
}
use openbao_attested_unseal.Broker.Rotation.Invariant.{IsSound}
use openbao_attested_unseal.Broker.Rotation.Start.{
  start_rotation-IsSound, next_rotation_versions-parts, validate_rotation_start-pending,
}
use openbao_attested_unseal.Broker.Rotation.Lifecycle.{activate_rotation-started}
use openbao_attested_unseal.Broker.Keys.Table.{find_key-snoc_none, same_ref_refl}

-- NextRotationKeyRef
unfoldable pub next_rotation_key_ref : Text → Text → List ProtectedKey → Result KeyRef
next_rotation_key_ref cluster_id key_id keys = do
  (_, version) ← next_rotation_versions cluster_id key_id keys
  ok (record { cluster_id = cluster_id; key_id = key_id; version = version })

-- SELECT … FROM rotation_verifications WHERE operation_id = ?
unfoldable pub select_verifications : Text → List RotationVerification → List RotationVerification
select_verifications id [] = []
select_verifications id (v ∷ vs) =
    let rest = select_verifications id vs in if text_eq v.operation_id id then v ∷ rest else rest

-- ORDER BY name
abbrev by_name : RotationVerification → RotationVerification → Bool
by_name v w = text_leb v.name w.name

-- RotationVerifications
unfoldable pub rotation_verifications : Text → RotationTables → Result (List RotationVerification)
rotation_verifications id t = do
  _ ← query_rotation_operation id t.operations
  ok (sort by_name (select_verifications id t.verifications))

find_key-query_max :
    (r : KeyRef) (ks : List ProtectedKey) (k : ProtectedKey)
    → find_key r ks ≡ some k
    → r.version ≤ query_max r.cluster_id r.key_id ks
unfolding find_key query_max
find_key-query_max r [] k h = cc
find_key-query_max r (j ∷ ks) k h = elim (Bool-cases (same_ref j.ref r)) [
  | inl same ↦
      let e = (same_ref_iff j.ref r).0 same in
      rw (sym e) (ground (arith, text_eq_refl j.ref.cluster_id, text_eq_refl j.ref.key_id))
  | inr differs ↦ let ih = find_key-query_max r ks k (ground arith) in ground (arith, ih)
]

-- The next version is not held.
find_key-next :
    (r : KeyRef) (ks : List ProtectedKey) (f : ℕ)
    → next_rotation_versions r.cluster_id r.key_id ks ≡ ok (f, r.version)
    → find_key r ks ≡ none
find_key-next r ks f h =
    let (_, m, _, _, _) = next_rotation_versions-parts r.cluster_id r.key_id ks f r.version h in
    elim (Option-cases (find_key r ks)) [
      | inl free ↦ free
      | inr (k, found) ↦ absurd (omega (arith, find_key-query_max r ks k found))
    ]

find_operation-snoc :
    (ops : List RotationOperation) (o : RotationOperation)
    → find_operation o.operation_id ops ≡ none
    → find_operation o.operation_id (ops ++ o ∷ []) ≡ some o
unfolding find_operation
find_operation-snoc [] o free = rw (text_eq_refl o.operation_id) refl
find_operation-snoc (p ∷ ops) o free = ground (arith, find_operation-snoc ops o)

insert_key-new :
    (k : ProtectedKey) (ks : List ProtectedKey)
    → find_key k.ref ks ≡ none
    → k.status ≡ pending
    → insert_key k ks ≡ ok (ks ++ k ∷ [])
unfolding insert_key
insert_key-new k ks free p = rw (free, insert_key) (rw p refl)

insert_operation-new :
    (o : RotationOperation) (ops : List RotationOperation)
    → find_operation o.operation_id ops ≡ none
    → ensure_no_started_rotation o.cluster_id o.key_id ops ≡ ok tt
    → insert_operation o ops ≡ ok (ops ++ o ∷ [])
unfolding insert_operation
insert_operation-new o ops new free = rw (new, insert_operation) (rw free refl)

module _ (r : RotationStartRequest) (clock : ℕ) (t : RotationTables) where
  -- The operation and the tables of a start of `r` from version `f`.
  abbrev pub next_operation : ℕ → RotationOperation
  next_operation f =
      started_operation r f r.key.ref.version (if r.created_at == 0 then clock else r.created_at)

  abbrev pub next_tables : ℕ → RotationTables
  next_tables f = record {
    keys = t.keys ++ r.key ∷ [];
    operations = t.operations ++ next_operation f ∷ [];
    verifications = t.verifications;
  }

  start_rotation-next :
      (f : ℕ)
      → next_rotation_versions r.key.ref.cluster_id r.key.ref.key_id t.keys
        ≡ ok (f, r.key.ref.version)
      → validate_rotation_start r ≡ ok tt
      → ensure_no_started_rotation r.key.ref.cluster_id r.key.ref.key_id t.operations ≡ ok tt
      → find_operation r.operation_id t.operations ≡ none
      → start_rotation r clock t ≡ ok (next_operation f, next_tables f)
  unfolding start_rotation
  start_rotation-next f next valid free new =
      let p = validate_rotation_start-pending r valid in
      let v = r.key.ref.version in
      let same : (v == v) ≡ true = (==_iff v v).1 refl in
      let keys = insert_key-new r.key t.keys (find_key-next r.key.ref t.keys f next) p in
      let ops = insert_operation-new (next_operation f) t.operations new free in
      rw valid (rw free (rw next (rw same (rw keys (rw ops refl)))))

  -- In sound tables a rotation of a key without a started operation, under a new operation id and with
  -- the reference that NextRotationKeyRef gives, starts and is then activated: the new version is
  -- active at the end.
  pub start_rotation-next_rotation_key_ref :
      (at clock' : ℕ)
      → IsSound t
      → next_rotation_key_ref r.key.ref.cluster_id r.key.ref.key_id t.keys ≡ ok r.key.ref
      → validate_rotation_start r ≡ ok tt
      → ensure_no_started_rotation r.key.ref.cluster_id r.key.ref.key_id t.operations ≡ ok tt
      → find_operation r.operation_id t.operations ≡ none
      → (o o' : RotationOperation) × (t' t'' : RotationTables) × (start_rotation r clock t
          ≡ ok (o, t'))
        × (activate_rotation r.operation_id at clock' t' ≡ ok (o', t''))
        × (find_key r.key.ref t''.keys ≡ some (with_status active r.key))
  unfolding next_rotation_key_ref
  start_rotation-next_rotation_key_ref at clock' sound given valid free new =
      let (versions, next, made) =
        >>=-ok (next_rotation_versions r.key.ref.cluster_id r.key.ref.key_id t.keys) _ given in
      let (f, v) = versions in
      let c = r.key.ref.cluster_id in
      let id = r.key.ref.key_id in
      let ref : record { cluster_id = c; key_id = id; version = v } ≡ r.key.ref = cc in
      let same : v ≡ r.key.ref.version = ap (λ (s : KeyRef). s.version) ref in
      let starts = start_rotation-next f (next ∙ ap (λ u. ok (f, u)) same) valid free new in
      let o = next_operation f in
      let t' = next_tables f in
      let found = find_operation-snoc t.operations o new in
      let (t'', old, new_key, done, _, promoted, _, held) =
        activate_rotation-started r.operation_id at clock' t' o
          (start_rotation-IsSound r clock t t' o sound starts) found refl in
      let free_ref = find_key-next r.key.ref t.keys f (next ∙ ap (λ u. ok (f, u)) same) in
      let added : find_key r.key.ref t'.keys ≡ some r.key =
        find_key-snoc_none r.key.ref t.keys r.key free_ref ∙ rw (same_ref_refl r.key.ref) refl in
      let same_key : new_key ≡ r.key = cc in
      (
        o,
        activate_operation (if at == 0 then clock' else at) o,
        t',
        t'',
        starts,
        done,
        rw same_key at promoted,
      )
