-- ===== src/Broker/Challenge/Scope.antt =====
-- memory_challenge.go: which presentations are valid, and what an operation leaves alone.
use mathlib.Core.Path.{subst}
use openbao_attested_unseal.Prelude.{
  ◌≡◌, refl, false, some, List, [], ◌∷◌, arith, ◌↔◌, ◌<◌, inl, inr, Bool-cases, Option-cases,
}
use openbao_attested_unseal.Prelude.Result.{ok}
use openbao_attested_unseal.Prelude.Text.{Text, text_eq, text_eq_iff, text_eq_refl}
use openbao_attested_unseal.Broker.Challenge.{
  StoredChallenge, Presented, lookup, put, check_stored, valid_challenge,
}

pub lookup-put :
    (id : Text) (c : StoredChallenge) (s : List StoredChallenge)
    → c.challenge.id ≡ id
    → lookup id (put id c s) ≡ some c
unfolding lookup put
lookup-put id c [] e = rw e (rw (text_eq_refl id) refl)
lookup-put id c (d ∷ ds) e = elim (Bool-cases (text_eq d.challenge.id id)) [
  | inl here ↦ rw here (rw e (rw (text_eq_refl id) refl))
  | inr differs ↦ rw differs (rw differs (lookup-put id c ds e))
]

pub lookup-put_ne :
    (id id' : Text) (c : StoredChallenge) (s : List StoredChallenge)
    → c.challenge.id ≡ id
    → text_eq id id' ≡ false
    → lookup id' (put id c s) ≡ lookup id' s
unfolding lookup put
lookup-put_ne id id' c [] e h = rw e (rw h refl)
lookup-put_ne id id' c (d ∷ ds) e h = elim (Bool-cases (text_eq d.challenge.id id)) [
  | inl here ↦ rw here (rw (e, (text_eq_iff d.challenge.id id).0 here) (rw h refl))
  | inr differs ↦ rw differs (rw (lookup-put_ne id id' c ds e h) refl)
]

lookup-id :
    (id : Text) (s : List StoredChallenge) (c : StoredChallenge)
    → lookup id s ≡ some c
    → c.challenge.id ≡ id
unfolding lookup
lookup-id id [] c h = cc
lookup-id id (d ∷ ds) c h = elim (Bool-cases (text_eq d.challenge.id id)) [
  | inl here ↦ ground (arith, text_eq_iff d.challenge.id id)
  | inr differs ↦ lookup-id id ds c (ground arith)
]

-- The challenge is stored, of the scope presented, unused, and not expired.
pub record IsUsable (p : Presented) (s : List StoredChallenge) (c : StoredChallenge) : Type 0 where
  pub stored : lookup p.id s ≡ some c
  pub id : c.challenge.id ≡ p.id
  pub cluster : c.challenge.cluster_id ≡ p.cluster_id
  pub subject : c.challenge.subject ≡ p.subject
  pub operation : c.challenge.operation ≡ p.operation
  pub unused : c.consumed ≡ false
  pub fresh : p.now < c.challenge.expires_at

pub check_stored-ok :
    (p : Presented) (c d : StoredChallenge)
    → check_stored p c ≡ ok d
    → (c ≡ d)
      × (c.challenge.cluster_id ≡ p.cluster_id)
      × (c.challenge.subject ≡ p.subject)
      × (c.challenge.operation ≡ p.operation)
      × (c.consumed ≡ false)
      × (p.now < c.challenge.expires_at)
unfolding check_stored
check_stored-ok p c d h =
    let a = text_eq_iff c.challenge.cluster_id p.cluster_id in
    let b = text_eq_iff c.challenge.subject p.subject in
    (ground arith, ground arith, ground arith, ground arith, ground arith, ground arith)

valid_challenge_sound :
    (p : Presented) (s : List StoredChallenge) (c : StoredChallenge)
    → valid_challenge p s ≡ ok c
    → IsUsable p s c
unfolding valid_challenge
valid_challenge_sound p s c h = elim (Option-cases (lookup p.id s)) [
  | inl missing ↦ absurd (cc (rw (missing, valid_challenge) at h))
  | inr (d, found) ↦
      let (same, cl, su, op, un, fr) = check_stored-ok p d c (rw (found, valid_challenge) at h) in
      let usable : IsUsable p s d = record {
        stored = found;
        id = lookup-id p.id s d found;
        cluster = cl;
        subject = su;
        operation = op;
        unused = un;
        fresh = fr;
      } in
      subst (λ u. IsUsable p s u) same usable
]

valid_challenge_complete :
    (p : Presented) (s : List StoredChallenge) (c : StoredChallenge)
    → IsUsable p s c
    → valid_challenge p s ≡ ok c
unfolding valid_challenge check_stored
valid_challenge_complete p s c h =
    rw (h.stored, valid_challenge)
      (ground (
        arith,
        h.cluster,
        h.subject,
        h.operation,
        h.unused,
        h.fresh,
        text_eq_refl p.cluster_id,
        text_eq_refl p.subject,
      ))

-- A presentation is valid for exactly the stored challenges of its id whose cluster, subject and
-- operation it gives, that are not consumed, and that expire later.
pub valid_challenge-ok :
    (p : Presented) (s : List StoredChallenge) (c : StoredChallenge)
    → (valid_challenge p s ≡ ok c) ↔ IsUsable p s c
valid_challenge-ok p s c = (valid_challenge_sound p s c, valid_challenge_complete p s c)
