-- ===== src/Broker/GrantRows/Once.antt =====
-- internal/broker/sqlite.go: what consuming an enrollment grant leaves.
use openbao_attested_unseal.Prelude.{
  ◌≡◌, refl, ℕ, true, false, not, ltb, ◌&&◌, some, List, [], ◌∷◌, ◌++◌, Bool-cases, inl, inr, arith,
}
use openbao_attested_unseal.Prelude.Result.{
  ok, err, other, challenge_not_found, challenge_expired, challenge_replayed, guard, wrap_err,
  or_err, >>=-ok, >>-ok, or_err-ok,
}
use openbao_attested_unseal.Prelude.Text.{Text, text_eq}
use openbao_attested_unseal.Broker.Subjects.{has_text}
use openbao_attested_unseal.Broker.ChallengeRows.{is_some}
use openbao_attested_unseal.Broker.NodeRows.{NodeText}
use openbao_attested_unseal.Broker.GrantRows.{
  EnrollmentRequestRecord, EnrollmentGrantRecord, GrantRow, GrantTables, has_request, find_grant,
  mark_grant, is_unconsumed, has_grant, grant_row, insert_enrollment_request,
  insert_enrollment_grant, consume_enrollment_grant,
}

-- A grant is held as consumed.
record IsConsumed (id : Text) (grants : List GrantRow) : Type 0 where
  row : GrantRow
  found : find_grant id grants ≡ some row
  consumed : is_some row.consumed_at ≡ true

find_grant-append :
    (id : Text) (rows new : List GrantRow) (r : GrantRow)
    → find_grant id rows ≡ some r
    → find_grant id (rows ++ new) ≡ some r
unfolding find_grant
find_grant-append id [] new r h = cc
find_grant-append id (q ∷ rows) new r h = ground (arith, find_grant-append id rows new r)

-- A row that is consumed is not marked again.
find_grant-mark_grant :
    (id j now : Text) (rows : List GrantRow) (r : GrantRow)
    → find_grant id rows ≡ some r
    → is_some r.consumed_at ≡ true
    → find_grant id (mark_grant j now rows) ≡ some r
unfolding find_grant mark_grant
find_grant-mark_grant id j now [] r h consumed = cc
find_grant-mark_grant id j now (q ∷ rows) r h consumed = elim (Bool-cases (text_eq q.grant_id id)) [
  | inl f ↦
      let here_found : some q ≡ some r = rw f at h in
      let same : q ≡ r = cc here_found in
      let marked : is_some q.consumed_at ≡ true = rw same consumed in
      let quiet : is_unconsumed j q ≡ false = ground (arith, marked) in rw quiet (rw f here_found)
  | inr f ↦
      let later = find_grant-mark_grant id j now rows r (rw f at h) consumed in
      elim (Bool-cases (is_unconsumed j q)) [
        | inl g ↦ rw g (rw f later)
        | inr g ↦ rw g (rw f later)
      ]
]

-- The row that is found is marked.
mark_grant-IsConsumed :
    (id now : Text) (rows : List GrantRow) (r : GrantRow)
    → find_grant id rows ≡ some r
    → IsConsumed id (mark_grant id now rows)
unfolding find_grant mark_grant
mark_grant-IsConsumed id now [] r h = cc
mark_grant-IsConsumed id now (q ∷ rows) r h = elim (Bool-cases (text_eq q.grant_id id)) [
  | inl f ↦ elim (Bool-cases (is_some q.consumed_at)) [
    | inl g ↦
        let quiet : is_unconsumed id q ≡ false = ground (arith, g) in
        rw quiet (record { row = q; found = rw f refl; consumed = g })
    | inr g ↦
        let marks : is_unconsumed id q ≡ true = ground (arith, f, g) in
        rw marks
          (record { row = record q { consumed_at = some now }; found = rw f refl; consumed = refl })
  ]
  | inr f ↦
      let quiet : is_unconsumed id q ≡ false = ground (arith, f) in
      let c = mark_grant-IsConsumed id now rows r (rw f at h) in
      rw quiet (record { row = c.row; found = rw f c.found; consumed = c.consumed })
]

consume_enrollment_grant-ok :
    (t : NodeText) (id : Text) (now : ℕ) (s s' : GrantTables)
    → consume_enrollment_grant t id now s ≡ ok s'
    → (r : GrantRow) × (find_grant id s.grants ≡ some r)
      × (mark_grant id (t.format_time now) s.grants ≡ s'.grants)
unfolding consume_enrollment_grant
consume_enrollment_grant-ok t id now s s' h =
    let (r, h1, k1) = >>=-ok (or_err (find_grant id s.grants) challenge_not_found) _ h in
    let (_, k2) = >>-ok (guard (not (is_some r.consumed_at)) challenge_replayed) _ k1 in
    let (expires_at, _, k3) = >>=-ok (wrap_err (t.parse_time r.expires_at) other) _ k2 in
    let (_, k4) = >>-ok (guard (ltb now expires_at) challenge_expired) _ k3 in
    (r, or_err-ok (find_grant id s.grants) challenge_not_found h1, cc k4)

module _ (t : NodeText) where
  -- The operations on the tables of requests and grants.
  pub data Step (s s' : GrantTables) : Type 0 where
    request : (r : EnrollmentRequestRecord) → insert_enrollment_request t r s ≡ ok s' → Step s s'
    grant : (g : EnrollmentGrantRecord) → insert_enrollment_grant t g s ≡ ok s' → Step s s'
    consume : (id : Text) (now : ℕ) → consume_enrollment_grant t id now s ≡ ok s' → Step s s'

  pub data Reach (s : GrantTables) : GrantTables → Type 0 where
    here : Reach s s
    next : {u v : GrantTables} → Reach s u → Step u v → Reach s v

  Step-IsConsumed :
      (id : Text) (s s' : GrantTables)
      → Step s s'
      → IsConsumed id s.grants
      → IsConsumed id s'.grants
  unfolding insert_enrollment_request insert_enrollment_grant
  Step-IsConsumed id s s' (request r h) c =
      let (_, k) = >>-ok (guard (has_text r.cluster_id s.clusters) other) _ h in
      let same : s.grants ≡ s'.grants = cc k in rw (← same) c
  Step-IsConsumed id s s' (grant g h) c =
      let (_, h1) = >>-ok (guard (not (has_grant g.grant_id s.grants)) other) _ h in
      let (_, k) =
        >>-ok
          (guard (has_request g.request_id s.requests && has_text g.cluster_id s.clusters) other) _
          h1 in
      let grown : s.grants ++ grant_row t g ∷ [] ≡ s'.grants = cc k in
      rw (← grown) (record {
        row = c.row;
        found = find_grant-append id s.grants (grant_row t g ∷ []) c.row c.found;
        consumed = c.consumed;
      })
  Step-IsConsumed id s s' (consume j now h) c =
      let (r, _, marked) = consume_enrollment_grant-ok t j now s s' h in
      rw (← marked) (record {
        row = c.row;
        found = find_grant-mark_grant id j (t.format_time now) s.grants c.row c.found c.consumed;
        consumed = c.consumed;
      })

  Reach-IsConsumed :
      (id : Text) (s s' : GrantTables)
      → Reach s s'
      → IsConsumed id s.grants
      → IsConsumed id s'.grants
  Reach-IsConsumed id s s' here c = c
  Reach-IsConsumed id s s' (next {u} steps step) c =
      Step-IsConsumed id u s' step (Reach-IsConsumed id s u steps c)

  consume_enrollment_grant-IsConsumed :
      (id : Text) (now : ℕ) (s s' : GrantTables)
      → consume_enrollment_grant t id now s ≡ ok s'
      → IsConsumed id s'.grants
  consume_enrollment_grant-IsConsumed id now s s' h =
      let (r, found, marked) = consume_enrollment_grant-ok t id now s s' h in
      rw (← marked) (mark_grant-IsConsumed id (t.format_time now) s.grants r found)

  -- Once ConsumeEnrollmentGrant has consumed a grant, it answers every later call for that grant, at
  -- whatever time and whatever requests and grants were inserted or consumed in between, with the error
  -- of a replay.
  pub consume_enrollment_grant_once :
      (id : Text) (now later : ℕ) (s s' s'' : GrantTables)
      → consume_enrollment_grant t id now s ≡ ok s'
      → Reach s' s''
      → consume_enrollment_grant t id later s'' ≡ err challenge_replayed
  unfolding consume_enrollment_grant
  consume_enrollment_grant_once id now later s s' s'' h steps =
      let c =
        Reach-IsConsumed id s' s'' steps (consume_enrollment_grant-IsConsumed id now s s' h) in
      rw c.found (rw c.consumed refl)
