-- ===== src/Broker/Challenge/Once.antt =====
-- memory_challenge.go: a challenge is used once, over every sequence of operations.
use openbao_attested_unseal.Prelude.{
  ap, ◌≡◌, ◌≢◌, refl, sym, ◌∙◌, true, false, none, some, List, arith, ◌<◌, inl, inr, Bool-cases,
  Option-cases,
}
use openbao_attested_unseal.Prelude.Result.{ok, Result-cases}
use openbao_attested_unseal.Prelude.Text.{Text, text_eq, text_eq_iff}
use openbao_attested_unseal.Broker.Challenge.{
  Challenge, StoredChallenge, Presented, lookup, put, create_challenge, valid_challenge,
  challenge_nonce, consume_challenge,
}
use openbao_attested_unseal.Broker.Challenge.Scope.{
  IsUsable, lookup-put, lookup-put_ne, valid_challenge-ok,
}

consume_challenge_sound :
    (p : Presented) (s s' : List StoredChallenge)
    → consume_challenge p s ≡ ok s'
    → (c : StoredChallenge) × IsUsable p s c
      × (s' ≡ put p.id (record { challenge = c.challenge; consumed = true }) s)
unfolding consume_challenge
consume_challenge_sound p s s' h = elim (Result-cases (valid_challenge p s)) [
  | inl (c, e) ↦ (c, (valid_challenge-ok p s c).0 e, ground arith)
  | inr (x, e) ↦ absurd (cc (rw (e, consume_challenge) at h))
]

text_eq_ne : (x y : Text) → y ≢ x → text_eq x y ≡ false
text_eq_ne x y h = elim (Bool-cases (text_eq x y)) [
  | inl same ↦ absurd (h (sym ((text_eq_iff x y).0 same)))
  | inr differs ↦ differs
]

-- Where a presentation is consumed, its challenge was usable and is marked as consumed afterwards.
consume_challenge-marks :
    (p : Presented) (s s' : List StoredChallenge)
    → consume_challenge p s ≡ ok s'
    → (c : StoredChallenge) × IsUsable p s c
      × (lookup p.id s' ≡ some (record { challenge = c.challenge; consumed = true }))
consume_challenge-marks p s s' h =
    let (c, usable, e) = consume_challenge_sound p s s' h in
    let d : StoredChallenge = record { challenge = c.challenge; consumed = true } in
    (c, usable, rw e (lookup-put p.id d s usable.id))

-- Where a presentation is consumed, its challenge was usable, it is marked as consumed afterwards and
-- otherwise unchanged, and the challenge of any other id is looked up as before.
pub consume_challenge-ok :
    (p : Presented) (s s' : List StoredChallenge) (id : Text)
    → consume_challenge p s ≡ ok s'
    → id ≢ p.id
    → (c : StoredChallenge) × IsUsable p s c
      × (lookup p.id s' ≡ some (record { challenge = c.challenge; consumed = true }))
      × (lookup id s' ≡ lookup id s)
consume_challenge-ok p s s' id h ne =
    let (c, usable, e) = consume_challenge_sound p s s' h in
    let d : StoredChallenge = record { challenge = c.challenge; consumed = true } in
    (
      c,
      usable,
      rw e (lookup-put p.id d s usable.id),
      ap (lookup id) e ∙ lookup-put_ne p.id id d s usable.id (text_eq_ne p.id id ne),
    )

-- The operations that change the store.
pub data Step : List StoredChallenge → List StoredChallenge → Type 0 where
  create : {s s' : List StoredChallenge} (c : Challenge) → create_challenge c s ≡ ok s' → Step s s'
  consume :
      {s s' : List StoredChallenge} (p : Presented) → consume_challenge p s ≡ ok s' → Step s s'

-- Any number of steps.
pub data Steps : List StoredChallenge → List StoredChallenge → Type 0 where
  done : {s : List StoredChallenge} → Steps s s
  step : {s s' s'' : List StoredChallenge} → Step s s' → Steps s' s'' → Steps s s''

-- The challenge of that id has been consumed.
abbrev IsUsed : Text → List StoredChallenge → Type 0
IsUsed id s = (c : StoredChallenge) × (lookup id s ≡ some c) × (c.consumed ≡ true)

create_challenge_sound :
    (c : Challenge) (s s' : List StoredChallenge)
    → create_challenge c s ≡ ok s'
    → (lookup c.id s ≡ none) × (s' ≡ put c.id (record { challenge = c; consumed = false }) s)
unfolding create_challenge
create_challenge_sound c s s' h = elim (Option-cases (lookup c.id s)) [
  | inl free ↦ (free, ground arith)
  | inr (d, taken) ↦ absurd (ground arith)
]

IsUsed-Step : (id : Text) (s s' : List StoredChallenge) → IsUsed id s → Step s s' → IsUsed id s'
IsUsed-Step id s s' (d, found, used) (create c h) =
    let (free, e) = create_challenge_sound c s s' h in
    elim (Bool-cases (text_eq c.id id)) [
      | inl same ↦ absurd (cc (rw ((text_eq_iff c.id id).0 same) at free))
      | inr differs ↦ (d, rw e (lookup-put_ne c.id id _ s refl differs ∙ found), used)
    ]
IsUsed-Step id s s' (d, found, used) (consume p h) =
    let (c, usable, e) = consume_challenge_sound p s s' h in
    elim (Bool-cases (text_eq p.id id)) [
      | inl same ↦
          let there : lookup p.id s ≡ some d = rw ((text_eq_iff p.id id).0 same) found in
          absurd (ground (arith, usable.stored, usable.unused))
      | inr differs ↦ (d, rw e (lookup-put_ne p.id id _ s usable.id differs ∙ found), used)
    ]

IsUsed-Steps : (id : Text) (s s' : List StoredChallenge) → IsUsed id s → Steps s s' → IsUsed id s'
IsUsed-Steps id s s' h done = h
IsUsed-Steps id s s' h (step {s' = t} one rest) =
    IsUsed-Steps id t s' (IsUsed-Step id s t h one) rest

used_not_usable :
    (p : Presented) (s s' : List StoredChallenge) → IsUsed p.id s → consume_challenge p s ≢ ok s'
used_not_usable p s s' (d, found, used) h =
    let (c, usable, e) = consume_challenge_sound p s s' h in
    ground (arith, usable.stored, usable.unused)

-- Once a challenge has been consumed, no later presentation of its id is consumed, whatever was
-- created and consumed in between.
pub consume_challenge_once :
    (p q : Presented) (s s' s'' t : List StoredChallenge)
    → consume_challenge p s ≡ ok s'
    → Steps s' s''
    → q.id ≡ p.id
    → consume_challenge q s'' ≢ ok t
consume_challenge_once p q s s' s'' t h run e =
    let (c, usable, found) = consume_challenge-marks p s s' h in
    used_not_usable q s'' t (rw e (IsUsed-Steps p.id s' s'' (_, found, refl) run))

-- A challenge that is created under a new id is consumed by a presentation of its scope at a time
-- before it expires.
pub consume_challenge-create_challenge :
    (c : Challenge) (p : Presented) (s s' : List StoredChallenge)
    → create_challenge c s ≡ ok s'
    → p.id ≡ c.id
    → p.cluster_id ≡ c.cluster_id
    → p.subject ≡ c.subject
    → p.operation ≡ c.operation
    → p.now < c.expires_at
    → (challenge_nonce p s' ≡ ok c.nonce)
      × ((s'' : List StoredChallenge) × (consume_challenge p s' ≡ ok s''))
unfolding challenge_nonce consume_challenge
consume_challenge-create_challenge c p s s' h i cl su op fresh =
    let (free, e) = create_challenge_sound c s s' h in
    let d : StoredChallenge = record { challenge = c; consumed = false } in
    let valid : valid_challenge p s' ≡ ok d = (valid_challenge-ok p s' d).1 (record {
      stored = rw i (rw e (lookup-put c.id d s refl));
      id = sym i;
      cluster = sym cl;
      subject = sym su;
      operation = sym op;
      unused = refl;
      fresh = fresh;
    }) in
    (rw valid refl, (put p.id (record { challenge = c; consumed = true }) s', rw valid refl))
