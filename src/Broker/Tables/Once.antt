-- ===== src/Broker/Tables/Once.antt =====
-- A challenge lets the policy allow one request.
use openbao_attested_unseal.Prelude.{◌≡◌, refl, true, false, arith, inl, inr, Bool-cases}
use openbao_attested_unseal.Prelude.Result.{ok, Result-cases}
use openbao_attested_unseal.Broker.Challenge.{Presented, consume_challenge}
use openbao_attested_unseal.Broker.Challenge.Once.{Steps, consume_challenge_once}
use openbao_attested_unseal.Broker.Policy.{
  PolicyEngine, PolicyRequest, allowed, evaluate, presented,
}
use openbao_attested_unseal.Broker.Policy.Evaluate.{evaluate-allowed}
use openbao_attested_unseal.Broker.Tables.{Tables, consume_in, table_store}

consume_in-ok :
    (t t' : Tables) (p : Presented)
    → consume_in t p ≡ ok t'
    → consume_challenge p t.challenges ≡ ok t'.challenges
unfolding consume_in
consume_in-ok t t' p h = elim (Result-cases (consume_challenge p t.challenges)) [
  | inl (cs, e) ↦ ground arith
  | inr (x, e) ↦ absurd (ground arith)
]

allowed-consumed :
    (e : PolicyEngine) (req : PolicyRequest) (t : Tables)
    → allowed (evaluate table_store e req t).0 ≡ true
    → consume_challenge (presented e req) t.challenges
      ≡ ok (evaluate table_store e req t).1.challenges
allowed-consumed e req t h =
    let after = (evaluate table_store e req t).1 in
    let a = ((evaluate-allowed table_store e req t after).0 (h, refl)).0 in
    consume_in-ok t after (presented e req) a.consumed

-- When the policy has allowed a request, it refuses every later request that presents the same
-- challenge, for whatever operation and key, and whatever challenges were created and consumed in
-- between.
pub evaluate_once :
    (e later : PolicyEngine) (req again : PolicyRequest) (t u : Tables)
    → allowed (evaluate table_store e req t).0 ≡ true
    → Steps (evaluate table_store e req t).1.challenges u.challenges
    → again.challenge_id ≡ req.challenge_id
    → allowed (evaluate table_store later again u).0 ≡ false
evaluate_once e later req again t u h run same =
    elim (Bool-cases (allowed (evaluate table_store later again u).0)) [
      | inr refused ↦ refused
      | inl granted ↦ absurd (
          consume_challenge_once (presented e req) (presented later again) t.challenges
            (evaluate table_store e req t).1.challenges u.challenges
            (evaluate table_store later again u).1.challenges (allowed-consumed e req t h) run same
            (allowed-consumed later again u granted))
    ]
