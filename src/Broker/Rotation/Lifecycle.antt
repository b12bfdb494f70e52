-- ===== src/Broker/Rotation/Lifecycle.antt =====
-- The rotation operations over every sequence of them.
use mathlib.Core.Path.{subst}
use openbao_attested_unseal.Prelude.{
  ℕ, ◌≡◌, ◌≢◌, refl, sym, ap, some, List, arith, ◌⊎◌, inl, inr, Option-cases, if◌then◌else◌, ◌==◌,
}
use openbao_attested_unseal.Prelude.Result.{ok, Result-cases}
use openbao_attested_unseal.Prelude.Text.{Text}
use openbao_attested_unseal.Keyring.Key.{KeyRef, active, decrypt_only}
use openbao_attested_unseal.Keyprotection.{ProtectedKey}
use openbao_attested_unseal.Broker.Keys.{find_key, with_status}
use openbao_attested_unseal.Broker.Rotation.{
  RotationOperation, RotationStatus, RotationTables, started, activated, cancelled_rotation,
  unrecognized_rotation, find_operation, query_rotation_operation, activate_operation,
  activate_read, activate_rotation, mark_activated, version_ref,
}
use openbao_attested_unseal.Broker.Rotation.Operations.{
  find_operation-id, find_operation-of_mark_activated, find_operation-mark_activated,
}
use openbao_attested_unseal.Broker.Rotation.Invariant.{IsPaired, IsSound}
use openbao_attested_unseal.Broker.Rotation.Activate.{
  activated_tables, update_demoted, update_promoted, HasOneActive-promoted,
  AreDistinctKeys-promoted, find_key-promoted, find_key-promoted_ne,
}

abbrev time_or : ℕ → ℕ → ℕ
time_or at clock = if at == 0 then clock else at

activate_read-started :
    (o : RotationOperation) (now : ℕ) (t : RotationTables)
    → IsSound t
    → IsPaired t.keys o
    → o.status ≡ started
    → activate_read o now t ≡ ok (activate_operation now o, activated_tables o now t)
unfolding activate_read
activate_read-started o now t s p e = rw e (
    rw (update_demoted t.keys o p s.distinct)
      (rw (update_promoted t.keys o p s.one_active s.distinct) refl))

query-find :
    (id : Text) (keys : List ProtectedKey) (ops : List RotationOperation) (o q : RotationOperation)
    → IsPaired keys o
    → q.from_version ≡ o.from_version
    → q.to_version ≡ o.to_version
    → find_operation id ops ≡ some q
    → query_rotation_operation id ops ≡ ok q
unfolding query_rotation_operation
query-find id keys ops o q p ef et f =
    rw (f, query_rotation_operation)
      (ground (arith, p.from_positive, p.from_small, p.to_positive, p.to_small))

find_operation_self :
    (id : Text) (ops : List RotationOperation) (o : RotationOperation)
    → find_operation id ops ≡ some o
    → find_operation o.operation_id ops ≡ some o
find_operation_self id ops o h =
    subst (λ i. find_operation i ops ≡ some o) (sym (find_operation-id id ops o h)) h

-- In sound tables ActivateRotation activates every started operation: it returns the operation as
-- activated, the old version, which was held before, is then decrypt-only, and the new one is active.
pub activate_rotation-started :
    (id : Text) (at clock : ℕ) (t : RotationTables) (o : RotationOperation)
    → IsSound t
    → find_operation id t.operations ≡ some o
    → o.status ≡ started
    → (t' : RotationTables) × (old : ProtectedKey) × (new : ProtectedKey) × (activate_rotation id at
          clock t
        ≡ ok (activate_operation (if at == 0 then clock else at) o, t'))
      × (find_key (version_ref o o.from_version) t'.keys ≡ some (with_status decrypt_only old))
      × (find_key (version_ref o o.to_version) t'.keys ≡ some (with_status active new))
      × (find_key (version_ref o o.from_version) t.keys ≡ some old)
      × (find_key (version_ref o o.to_version) t.keys ≡ some new)
unfolding activate_rotation
activate_rotation-started id at clock t o s f e =
    let p = s.paired o (find_operation_self id t.operations o f) e in
    let (demote, promote) = find_key-promoted t.keys o p in
    (
      activated_tables o (time_or at clock) t,
      p.old,
      p.new,
      rw (query-find id t.keys t.operations o o p refl refl f)
          (activate_read-started o (time_or at clock) t s p e),
      demote,
      promote,
      p.old_found,
      p.new_found,
    )

IsPaired-promoted :
    (t : RotationTables) (o q : RotationOperation) (p : IsPaired t.keys o)
    → IsPaired t.keys q
    → (q.cluster_id ≡ o.cluster_id → q.key_id ≢ o.key_id)
    → IsPaired (activated_tables o 0 t).keys q
IsPaired-promoted t o q p w differ =
    let ne : (v u : ℕ) → version_ref q v ≢ version_ref o u =
      λ v u e. differ (ap (λ (r : KeyRef). r.cluster_id) e) (ap (λ (r : KeyRef). r.key_id) e) in
    record {
      old = w.old;
      old_found =
          find_key-promoted_ne t.keys o p (version_ref q q.from_version) w.old
            (ne q.from_version o.from_version) (ne q.from_version o.to_version) w.old_found;
      old_active = w.old_active;
      new = w.new;
      new_found =
          find_key-promoted_ne t.keys o p (version_ref q q.to_version) w.new
            (ne q.to_version o.from_version) (ne q.to_version o.to_version) w.new_found;
      new_pending = w.new_pending;
      from_positive = w.from_positive;
      from_small = w.from_small;
      to_positive = w.to_positive;
      to_small = w.to_small;
    }

IsSound-activated :
    (id : Text) (now : ℕ) (t : RotationTables) (o : RotationOperation)
    → IsSound t
    → find_operation id t.operations ≡ some o
    → o.status ≡ started
    → IsSound (activated_tables o now t)
IsSound-activated id now t o s f e =
    let self = find_operation_self id t.operations o f in
    let p = s.paired o self e in
    let old : (q : RotationOperation)
        → find_operation q.operation_id (mark_activated o.operation_id now t.operations) ≡ some q
        → q.status ≡ started
        → (find_operation q.operation_id t.operations ≡ some q)
          × (q.operation_id ≢ o.operation_id) =
      λ q fq sq.
        find_operation-of_mark_activated q.operation_id o.operation_id now t.operations q fq sq in
    record {
      distinct = AreDistinctKeys-promoted t.keys o p s.distinct;
      one_active = HasOneActive-promoted t.keys o p s.one_active;
      one_started =
          λ q r fq fr c k sq sr. s.one_started q r (old q fq sq).0 (old r fr sr).0 c k sq sr;
      paired = λ q fq sq.
          let (was, ne) = old q fq sq in
          IsPaired-promoted t o q p (s.paired q was sq)
            (λ c k. ne (s.one_started q o was self c k sq e));
    }

query_rotation_operation-ok :
    (id : Text) (ops : List RotationOperation) (o : RotationOperation)
    → query_rotation_operation id ops ≡ ok o
    → find_operation id ops ≡ some o
unfolding query_rotation_operation
query_rotation_operation-ok id ops o h = elim (Option-cases (find_operation id ops)) [
  | inl missing ↦ absurd (ground arith)
  | inr (p, found) ↦ ground arith
]

activate_rotation-parts :
    (id : Text) (at clock : ℕ) (t t' : RotationTables) (o' : RotationOperation)
    → activate_rotation id at clock t ≡ ok (o', t')
    → (o : RotationOperation) × (find_operation id t.operations ≡ some o)
      × (activate_read o (time_or at clock) t ≡ ok (o', t'))
unfolding activate_rotation
activate_rotation-parts id at clock t t' o' h =
    elim (Result-cases (query_rotation_operation id t.operations)) [
      | inl (o, e) ↦ (o, query_rotation_operation-ok id t.operations o e, ground arith)
      | inr (x, e) ↦ absurd (ground arith)
    ]

-- An activation that is not of a started operation changes nothing.
activate_read-kept :
    (o o' : RotationOperation) (now : ℕ) (t t' : RotationTables) (st : RotationStatus)
    → o.status ≡ st
    → st ≢ started
    → activate_read o now t ≡ ok (o', t')
    → t ≡ t'
unfolding activate_read
activate_read-kept o o' now t t' started e ne h = absurd (ne refl)
activate_read-kept o o' now t t' activated e ne h = ground arith
activate_read-kept o o' now t t' cancelled_rotation e ne h = absurd (ground arith)
activate_read-kept o o' now t t' (unrecognized_rotation x) e ne h = absurd (ground arith)

is_started-cases : (st : RotationStatus) → (st ≡ started) ⊎ (st ≢ started)
is_started-cases started = inl refl
is_started-cases activated = inr (λ e. cc)
is_started-cases cancelled_rotation = inr (λ e. cc)
is_started-cases (unrecognized_rotation x) = inr (λ e. cc)

-- An activation that succeeds changes nothing, or activates a started operation.
pub activate_rotation-cases :
    (id : Text) (at clock : ℕ) (t t' : RotationTables) (o' : RotationOperation)
    → IsSound t
    → activate_rotation id at clock t ≡ ok (o', t')
    → (t ≡ t')
      ⊎ ((o : RotationOperation) × (find_operation id t.operations ≡ some o)
          × (o.status ≡ started)
          × IsPaired t.keys o
          × (activated_tables o (if at == 0 then clock else at) t ≡ t'))
activate_rotation-cases id at clock t t' o' s h =
    let (o, f, e) = activate_rotation-parts id at clock t t' o' h in
    elim (is_started-cases o.status) [
      | inl st ↦
          let p = s.paired o (find_operation_self id t.operations o f) st in
          let done = activate_read-started o (time_or at clock) t s p st in inr (o, f, st, p, cc)
      | inr ne ↦ inl (activate_read-kept o o' (time_or at clock) t t' o.status refl ne e)
    ]

-- ActivateRotation keeps the tables sound.
pub activate_rotation-IsSound :
    (id : Text) (at clock : ℕ) (t t' : RotationTables) (o' : RotationOperation)
    → IsSound t
    → activate_rotation id at clock t ≡ ok (o', t')
    → IsSound t'
activate_rotation-IsSound id at clock t t' o' s h =
    elim (activate_rotation-cases id at clock t t' o' s h) [
      | inl same ↦ rw same at s
      | inr (o, f, st, _, same) ↦ rw same at (IsSound-activated id (time_or at clock) t o s f st)
    ]

activate_again-lem :
    (id : Text) (o : RotationOperation) (now at clock : ℕ) (t : RotationTables)
    → o.operation_id ≡ id
    → find_operation id t.operations ≡ some o
    → IsPaired t.keys o
    → activate_rotation id at clock (activated_tables o now t)
      ≡ ok (activate_operation now o, activated_tables o now t)
unfolding activate_rotation activate_read
activate_again-lem id o now at clock t i f p =
    let found : find_operation id (mark_activated o.operation_id now t.operations)
        ≡ some (activate_operation now o) =
      subst
        (λ j.
          find_operation id (mark_activated j now t.operations) ≡ some (activate_operation now o))
        (sym i) (find_operation-mark_activated id now t.operations o f) in
    rw
      (query-find id t.keys (mark_activated o.operation_id now t.operations) o
        (activate_operation now o) p refl refl found)
      refl

-- A second ActivateRotation of an activated operation returns the operation as it is stored, and
-- changes nothing.
pub activate_rotation_again :
    (id : Text) (at clock at' clock' : ℕ) (t t' : RotationTables) (o o' : RotationOperation)
    → IsSound t
    → find_operation id t.operations ≡ some o
    → o.status ≡ started
    → activate_rotation id at clock t ≡ ok (o', t')
    → activate_rotation id at' clock' t' ≡ ok (o', t')
activate_rotation_again id at clock at' clock' t t' o o' s f e h =
    let p = s.paired o (find_operation_self id t.operations o f) e in
    let (q, fq, read) = activate_rotation-parts id at clock t t' o' h in
    let same : q ≡ o = ground arith in
    let now = time_or at clock in
    let done : activate_read q now t ≡ ok (activate_operation now o, activated_tables o now t) =
      rw same (activate_read-started o now t s p e) in
    let eo : activate_operation now o ≡ o' = cc in
    let et : activated_tables o now t ≡ t' = cc in
    rw (sym eo) (
      rw (sym et)
        (activate_again-lem id o now at' clock' t (find_operation-id id t.operations o f) f p))
