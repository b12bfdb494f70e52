-- ===== src/Broker/Rotation/Start.antt =====
-- StartRotation keeps the invariant.
use openbao_attested_unseal.Prelude.{
  ℕ, ◌+◌, ◌≤◌, ◌<◌, ◌≡◌, ◌≢◌, refl, sym, ◌∙◌, false, none, some, List, [], ◌∷◌, ◌++◌, arith, ◌⊎◌,
  inl, inr, Option-cases, if◌then◌else◌, ◌==◌,
}
use openbao_attested_unseal.Prelude.Result.{ok, Result-cases}
use openbao_attested_unseal.Prelude.Text.{Text, text_eq_refl}
use openbao_attested_unseal.Keyring.Key.{KeyRef, pending, version_limit}
use openbao_attested_unseal.Keyprotection.{ProtectedKey}
use openbao_attested_unseal.Broker.Keys.{
  find_key, insert_key, query_active, query_max, next_rotation_versions,
}
use openbao_attested_unseal.Broker.Keys.Table.{
  AreDistinctKeys, AreDistinctKeys-snoc, HasOneActive, find_key-snoc_some, find_key-snoc_none,
  same_ref_refl,
}
use openbao_attested_unseal.Broker.Rotation.{
  RotationOperation, RotationTables, RotationStartRequest, started, started_for, find_operation,
  ensure_no_started_rotation, insert_operation, started_operation, validate_rotation_start,
  start_rotation, version_ref,
}
use openbao_attested_unseal.Broker.Rotation.Operations.{
  find_operation-of_snoc, ensure_no_started_rotation-find, query_active-find_key,
}
use openbao_attested_unseal.Broker.Rotation.Invariant.{IsPaired, HasOneStarted, IsSound}

pub start_rotation-parts :
    (r : RotationStartRequest) (clock : ℕ) (t t' : RotationTables) (o : RotationOperation)
    → start_rotation r clock t ≡ ok (o, t')
    → (f : ℕ) × (v : ℕ) × (keys : List ProtectedKey) × (ops : List RotationOperation)
      × (validate_rotation_start r ≡ ok tt)
      × (ensure_no_started_rotation r.key.ref.cluster_id r.key.ref.key_id t.operations ≡ ok tt)
      × (next_rotation_versions r.key.ref.cluster_id r.key.ref.key_id t.keys ≡ ok (f, v))
      × (r.key.ref.version ≡ v)
      × (insert_key r.key t.keys ≡ ok keys)
      × (insert_operation
            (started_operation r f v (if r.created_at == 0 then clock else r.created_at))
            t.operations
          ≡ ok ops)
      × (o ≡ started_operation r f v (if r.created_at == 0 then clock else r.created_at))
      × (t' ≡ record { keys = keys; operations = ops; verifications = t.verifications })
unfolding start_rotation
start_rotation-parts r clock t t' o h =
    elim (Result-cases (next_rotation_versions r.key.ref.cluster_id r.key.ref.key_id t.keys)) [
      | inr (e, en) ↦ absurd (ground arith)
      | inl ((f, v), en) ↦ elim (Result-cases (insert_key r.key t.keys)) [
        | inr (e, ek) ↦ absurd (ground arith)
        | inl (keys, ek) ↦
            elim (Result-cases (
              insert_operation
                (started_operation r f v (if r.created_at == 0 then clock else r.created_at))
                t.operations)) [
                  | inr (e, eo) ↦ absurd (ground arith)
                  | inl (ops, eo) ↦ (
                    f,
                    v,
                    keys,
                    ops,
                    ground arith,
                    ground arith,
                    en,
                    ground arith,
                    ek,
                    eo,
                    ground arith,
                    ground arith,
                  )
                ]
      ]
    ]

pub next_rotation_versions-parts :
    (cluster_id key_id : Text) (ks : List ProtectedKey) (f v : ℕ)
    → next_rotation_versions cluster_id key_id ks ≡ ok (f, v)
    → (query_active cluster_id key_id ks ≡ some f)
      × (v ≡ query_max cluster_id key_id ks + 1)
      × (0 < f)
      × (f ≤ version_limit)
      × (v ≤ version_limit)
unfolding next_rotation_versions
next_rotation_versions-parts cluster_id key_id ks f v h =
    (ground arith, ground arith, ground arith, ground arith, ground arith)

pub validate_rotation_start-pending :
    (r : RotationStartRequest) → validate_rotation_start r ≡ ok tt → r.key.status ≡ pending
unfolding validate_rotation_start
validate_rotation_start-pending r h = ground arith

pub insert_key-parts :
    (k : ProtectedKey) (ks ks' : List ProtectedKey)
    → insert_key k ks ≡ ok ks'
    → (find_key k.ref ks ≡ none) × (ks' ≡ ks ++ k ∷ [])
unfolding insert_key
insert_key-parts k ks ks' h = elim (Option-cases (find_key k.ref ks)) [
  | inl free ↦ (free, ground arith)
  | inr (j, taken) ↦ absurd (ground arith)
]

insert_operation-parts :
    (o : RotationOperation) (ops ops' : List RotationOperation)
    → insert_operation o ops ≡ ok ops'
    → ops' ≡ ops ++ o ∷ []
unfolding insert_operation
insert_operation-parts o ops ops' h = ground arith

-- A row of the table with the new row is the new row or an old one.
find_key-of_snoc :
    (s : KeyRef) (ks : List ProtectedKey) (k j : ProtectedKey)
    → find_key s (ks ++ k ∷ []) ≡ some j
    → (find_key s ks ≡ some j) ⊎ (j ≡ k)
find_key-of_snoc s ks k j h = elim (Option-cases (find_key s ks)) [
  | inl missing ↦ inr (ground (arith, find_key-snoc_none s ks k missing))
  | inr (i, found) ↦ inl (ground (arith, find_key-snoc_some s ks k i found))
]

HasOneActive-snoc :
    (ks : List ProtectedKey) (k : ProtectedKey)
    → HasOneActive ks
    → k.status ≡ pending
    → HasOneActive (ks ++ k ∷ [])
HasOneActive-snoc ks k one p i j fi fj c d ai aj = elim (find_key-of_snoc i.ref ks k i fi) [
  | inl oi ↦ elim (find_key-of_snoc j.ref ks k j fj) [
    | inl oj ↦ one i j oi oj c d ai aj
    | inr nj ↦ absurd (ground arith)
  ]
  | inr ni ↦ absurd (ground arith)
]

started_for-started :
    (cluster_id key_id : Text) (o : RotationOperation)
    → started_for cluster_id key_id o ≡ false
    → o.status ≡ started
    → o.cluster_id ≡ cluster_id
    → o.key_id ≢ key_id
started_for-started cluster_id key_id o h s c k =
    ground (arith, text_eq_refl cluster_id, text_eq_refl key_id)

HasOneStarted-snoc :
    (ops : List RotationOperation) (o : RotationOperation)
    → HasOneStarted ops
    → ensure_no_started_rotation o.cluster_id o.key_id ops ≡ ok tt
    → HasOneStarted (ops ++ o ∷ [])
HasOneStarted-snoc ops o one free p q fp fq c k sp sq =
    elim (find_operation-of_snoc p.operation_id ops o p fp) [
      | inl op ↦ elim (find_operation-of_snoc q.operation_id ops o q fq) [
        | inl oq ↦ one p q op oq c k sp sq
        | inr nq ↦ absurd (alone p op sp (rw nq at c) (rw nq at k))
      ]
      | inr np ↦ elim (find_operation-of_snoc q.operation_id ops o q fq) [
        | inl oq ↦ absurd (alone q oq sq (sym (rw np at c)) (sym (rw np at k)))
        | inr nq ↦ rw np (rw nq refl)
      ]
    ]
  where
    alone :
        (p : RotationOperation)
        → find_operation p.operation_id ops ≡ some p
        → p.status ≡ started
        → p.cluster_id ≡ o.cluster_id
        → p.key_id ≢ o.key_id
    alone p f s c =
        started_for-started o.cluster_id o.key_id p
          (ensure_no_started_rotation-find o.cluster_id o.key_id p.operation_id ops p free f) s c

IsPaired-snoc :
    (ks : List ProtectedKey) (k : ProtectedKey) (o : RotationOperation)
    → IsPaired ks o
    → IsPaired (ks ++ k ∷ []) o
IsPaired-snoc ks k o p = record {
  old = p.old;
  old_found = find_key-snoc_some (version_ref o o.from_version) ks k p.old p.old_found;
  old_active = p.old_active;
  new = p.new;
  new_found = find_key-snoc_some (version_ref o o.to_version) ks k p.new p.new_found;
  new_pending = p.new_pending;
  from_positive = p.from_positive;
  from_small = p.from_small;
  to_positive = p.to_positive;
  to_small = p.to_small;
}

-- The new operation is paired with the active version and with the inserted one.
IsPaired-started :
    (r : RotationStartRequest) (f v now : ℕ) (ks : List ProtectedKey)
    → AreDistinctKeys ks
    → next_rotation_versions r.key.ref.cluster_id r.key.ref.key_id ks ≡ ok (f, v)
    → r.key.ref.version ≡ v
    → r.key.status ≡ pending
    → find_key r.key.ref ks ≡ none
    → IsPaired (ks ++ r.key ∷ []) (started_operation r f v now)
IsPaired-started r f v now ks d next e p free =
    let (q, m, fp, fs, vs) =
      next_rotation_versions-parts r.key.ref.cluster_id r.key.ref.key_id ks f v next in
    let (k, found, a) = query_active-find_key r.key.ref.cluster_id r.key.ref.key_id ks f d q in
    let o = started_operation r f v now in
    record {
      old = k;
      old_found = find_key-snoc_some (version_ref o f) ks r.key k found;
      old_active = a;
      new = r.key;
      new_found =
          rw (sym e)
            (find_key-snoc_none r.key.ref ks r.key free ∙ rw (same_ref_refl r.key.ref) refl);
      new_pending = p;
      from_positive = fp;
      from_small = fs;
      to_positive = omega arith;
      to_small = vs;
    }

-- StartRotation keeps the tables sound.
pub start_rotation-IsSound :
    (r : RotationStartRequest) (clock : ℕ) (t t' : RotationTables) (o : RotationOperation)
    → IsSound t
    → start_rotation r clock t ≡ ok (o, t')
    → IsSound t'
start_rotation-IsSound r clock t t' o s h =
    let (f, v, keys, ops, valid, free, next, e, ik, io, oe, te) =
      start_rotation-parts r clock t t' o h in
    let p = validate_rotation_start-pending r valid in
    let (fresh, ke) = insert_key-parts r.key t.keys keys ik in
    let now = if r.created_at == 0 then clock else r.created_at in
    let n = started_operation r f v now in
    let oe2 = insert_operation-parts n t.operations ops io in
    let sound : IsSound (record {
      keys = t.keys ++ r.key ∷ [];
      operations = t.operations ++ n ∷ [];
      verifications = t.verifications;
    }) =
      record {
        distinct = AreDistinctKeys-snoc t.keys r.key s.distinct fresh;
        one_active = HasOneActive-snoc t.keys r.key s.one_active p;
        one_started = HasOneStarted-snoc t.operations n s.one_started free;
        paired = λ q fq sq. elim (find_operation-of_snoc q.operation_id t.operations n q fq) [
          | inl old ↦ IsPaired-snoc t.keys r.key q (s.paired q old sq)
          | inr new ↦ rw new (IsPaired-started r f v now t.keys s.distinct next e p fresh)
        ];
      } in
    rw te (rw ke (rw oe2 sound))
