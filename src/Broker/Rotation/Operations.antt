-- ===== src/Broker/Rotation/Operations.antt =====
-- sqlite.go: the table rotation_operations under its statements, and the query of the active version.
use mathlib.Core.List.{Memᴰ}
use openbao_attested_unseal.Prelude.{
  ℕ, ◌≡◌, ◌≢◌, refl, sym, false, ◌&&◌, some, List, [], ◌∷◌, ◌++◌, arith, ◌⊎◌, inl, inr, Bool-cases,
}
use openbao_attested_unseal.Prelude.Result.{ok}
use openbao_attested_unseal.Prelude.Text.{Text, text_eq, text_eq_iff}
use openbao_attested_unseal.Keyring.Key.{active, is_active}
use openbao_attested_unseal.Keyprotection.{ProtectedKey}
use openbao_attested_unseal.Broker.Keys.{of_key, find_key, query_active}
use openbao_attested_unseal.Broker.Keys.Table.{AreDistinctKeys, find_key-mem}
use openbao_attested_unseal.Broker.Rotation.{
  RotationOperation, started, started_for, find_operation, ensure_no_started_rotation,
  mark_activated, activate_operation,
}

pub find_operation-id :
    (id : Text) (ops : List RotationOperation) (o : RotationOperation)
    → find_operation id ops ≡ some o
    → o.operation_id ≡ id
unfolding find_operation
find_operation-id id [] o h = cc
find_operation-id id (p ∷ ops) o h = elim (Bool-cases (text_eq p.operation_id id)) [
  | inl same ↦ ground (arith, (text_eq_iff p.operation_id id).0 same)
  | inr differs ↦ find_operation-id id ops o (ground arith)
]

-- An operation of a table with a new row is the new row or an old one.
pub find_operation-of_snoc :
    (id : Text) (ops : List RotationOperation) (o p : RotationOperation)
    → find_operation id (ops ++ o ∷ []) ≡ some p
    → (find_operation id ops ≡ some p) ⊎ (p ≡ o)
unfolding find_operation
find_operation-of_snoc id [] o p h = inr (ground arith)
find_operation-of_snoc id (q ∷ ops) o p h = elim (Bool-cases (text_eq q.operation_id id)) [
  | inl same ↦ inl (ground arith)
  | inr differs ↦ elim (find_operation-of_snoc id ops o p (ground arith)) [
    | inl old ↦ inl (ground arith)
    | inr new ↦ inr new
  ]
]

-- An operation that is started after an activation is another operation, and as it was before.
pub find_operation-of_mark_activated :
    (id done : Text) (now : ℕ) (ops : List RotationOperation) (p : RotationOperation)
    → find_operation id (mark_activated done now ops) ≡ some p
    → p.status ≡ started
    → (find_operation id ops ≡ some p) × (p.operation_id ≢ done)
unfolding find_operation mark_activated
find_operation-of_mark_activated id done now [] p h s = cc
find_operation-of_mark_activated id done now (q ∷ ops) p h s =
    elim (Bool-cases (text_eq q.operation_id done)) [
      | inl hit ↦ elim (Bool-cases (text_eq q.operation_id id)) [
        | inl same ↦ absurd (ground arith)
        | inr differs ↦
            let (found, ne) = find_operation-of_mark_activated id done now ops p (ground arith) s in
            (ground arith, ne)
      ]
      | inr missed ↦ elim (Bool-cases (text_eq q.operation_id id)) [
        | inl same ↦
            let e : q ≡ p = ground arith in
            (
              ground arith,
              λ eq. absurd (ground (arith, (text_eq_iff q.operation_id done).1 (rw e eq))),
            )
        | inr differs ↦
            let (found, ne) = find_operation-of_mark_activated id done now ops p (ground arith) s in
            (ground arith, ne)
      ]
    ]

pub find_operation-mark_activated :
    (id : Text) (now : ℕ) (ops : List RotationOperation) (o : RotationOperation)
    → find_operation id ops ≡ some o
    → find_operation id (mark_activated id now ops) ≡ some (activate_operation now o)
unfolding find_operation mark_activated
find_operation-mark_activated id now [] o h = cc
find_operation-mark_activated id now (q ∷ ops) o h = elim (Bool-cases (text_eq q.operation_id id)) [
  | inl same ↦ ground arith
  | inr differs ↦ ground (arith, find_operation-mark_activated id now ops o)
]

-- Where no operation of a key is started, an operation of the table is not.
pub ensure_no_started_rotation-find :
    (cluster_id key_id id : Text) (ops : List RotationOperation) (o : RotationOperation)
    → ensure_no_started_rotation cluster_id key_id ops ≡ ok tt
    → find_operation id ops ≡ some o
    → started_for cluster_id key_id o ≡ false
unfolding ensure_no_started_rotation find_operation
ensure_no_started_rotation-find cluster_id key_id id [] o h f = cc
ensure_no_started_rotation-find cluster_id key_id id (p ∷ ops) o h f =
    elim (Bool-cases (text_eq p.operation_id id)) [
      | inl same ↦ let e : p ≡ o = ground arith in rw (sym e) (ground arith)
      | inr differs ↦
          ensure_no_started_rotation-find cluster_id key_id id ops o (ground arith) (ground arith)
    ]

pub query_active-mem :
    (cluster_id key_id : Text) (ks : List ProtectedKey) (v : ℕ)
    → query_active cluster_id key_id ks ≡ some v
    → (k : ProtectedKey) × Memᴰ k ks
      × (k.ref ≡ record { cluster_id = cluster_id; key_id = key_id; version = v })
      × (k.status ≡ active)
unfolding query_active
query_active-mem cluster_id key_id [] v h = cc
query_active-mem cluster_id key_id (k ∷ ks) v h =
    elim (Bool-cases (of_key cluster_id key_id k.ref && is_active k.status)) [
      | inl here ↦ (
        k,
        Memᴰ.head refl,
        ground (arith, text_eq_iff k.ref.cluster_id cluster_id, text_eq_iff k.ref.key_id key_id),
        ground arith,
      )
      | inr later ↦
          let (j, m, r, a) = query_active-mem cluster_id key_id ks v (ground arith) in
          (j, Memᴰ.tail m, r, a)
    ]

-- The active version is the version of an active row of the key.
pub query_active-find_key :
    (cluster_id key_id : Text) (ks : List ProtectedKey) (v : ℕ)
    → AreDistinctKeys ks
    → query_active cluster_id key_id ks ≡ some v
    → (k : ProtectedKey) × (find_key
          (record { cluster_id = cluster_id; key_id = key_id; version = v })
          ks
        ≡ some k)
      × (k.status ≡ active)
query_active-find_key cluster_id key_id ks v d h =
    let (k, m, r, a) = query_active-mem cluster_id key_id ks v h in
    (k, rw (sym r) (find_key-mem ks k d m), a)
