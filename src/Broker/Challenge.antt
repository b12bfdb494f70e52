-- ===== src/Broker/Challenge.antt =====
-- internal/broker/memory_challenge.go: single-use challenges. The map of the store is an association
-- list from challenge ids; the lock makes each operation one step. A time is the number of its
-- nanoseconds, and an operation the number of its protobuf value.
pub mod Once
pub mod Scope
use openbao_attested_unseal.Prelude.{
  ℕ, Bool, true, false, not, ◌&&◌, ◌||◌, Option, none, some, List, [], ◌∷◌, ltb, ◌==◌,
  if◌then◌else◌,
}
use openbao_attested_unseal.Prelude.Result.{
  Result, ok, err, challenge_not_found, challenge_mismatch, challenge_replayed, challenge_expired,
  other, ◌>>=◌, ◌>>◌, guard,
}
use openbao_attested_unseal.Prelude.Text.{Text, text_eq, is_empty}
use openbao_attested_unseal.Prelude.Space.{is_blank}

pub record Challenge : Type 0 where
  pub id : Text
  pub nonce : Text
  pub cluster_id : Text
  pub subject : Text
  pub operation : ℕ
  pub expires_at : ℕ
  pub created_at : ℕ

-- memoryChallenge
pub record StoredChallenge : Type 0 where
  pub challenge : Challenge
  pub consumed : Bool

-- The arguments of ChallengeNonce and ConsumeChallenge.
pub record Presented : Type 0 where
  pub id : Text
  pub cluster_id : Text
  pub subject : Text
  pub operation : ℕ
  pub now : ℕ

-- s.challenges[id]
unfoldable pub lookup : Text → List StoredChallenge → Option StoredChallenge
lookup id [] = none
lookup id (c ∷ cs) = if text_eq c.challenge.id id then some c else lookup id cs

-- s.challenges[id] = c
unfoldable pub put : Text → StoredChallenge → List StoredChallenge → List StoredChallenge
put id c [] = c ∷ []
put id c (d ∷ ds) = let rest = put id c ds in if text_eq d.challenge.id id then c ∷ ds else d ∷ rest

-- CreateChallenge
unfoldable pub create_challenge : Challenge → List StoredChallenge → Result (List StoredChallenge)
create_challenge c s = do
  guard (not (is_blank c.id || is_empty c.nonce)) other
  elim (lookup c.id s) [
    | some _ ↦ err other
    | none ↦ ok (put c.id (record { challenge = c; consumed = false }) s)
  ]

-- The scope of a challenge is the one that the caller presents.
abbrev pub same_scope : Presented → Challenge → Bool
same_scope p c =
    text_eq c.cluster_id p.cluster_id
    && (text_eq c.subject p.subject && (c.operation == p.operation))

-- The checks of validChallenge on the stored challenge.
unfoldable pub check_stored : Presented → StoredChallenge → Result StoredChallenge
check_stored p c = do
  guard (same_scope p c.challenge) challenge_mismatch
  guard (not c.consumed) challenge_replayed
  guard (ltb p.now c.challenge.expires_at) challenge_expired
  ok c

-- validChallenge
unfoldable pub valid_challenge : Presented → List StoredChallenge → Result StoredChallenge
valid_challenge p s = elim (lookup p.id s) [
  | none ↦ err challenge_not_found
  | some c ↦ check_stored p c
]

-- ChallengeNonce
unfoldable pub challenge_nonce : Presented → List StoredChallenge → Result Text
challenge_nonce p s = do c ← valid_challenge p s; ok c.challenge.nonce

-- ConsumeChallenge
unfoldable pub consume_challenge : Presented → List StoredChallenge → Result (List StoredChallenge)
consume_challenge p s = do
  c ← valid_challenge p s
  ok (put p.id (record { challenge = c.challenge; consumed = true }) s)
