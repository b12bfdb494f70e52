-- ===== src/Broker/ChallengeRows/Refine.antt =====
-- The table challenges implements the process-local store of memory_challenge.go.
use mathlib.Core.Path.{subst}
use openbao_attested_unseal.Prelude.{
  ℕ, ◌≡◌, refl, sym, ap, ◌∙◌, true, false, none, some, List, [], ◌∷◌, ◌==◌, arith, ◌⊎◌, inl, inr,
  Bool-cases,
}
use openbao_attested_unseal.Prelude.Result.{Result, ok, err, ◌>>=◌, ◌>>◌}
use openbao_attested_unseal.Prelude.Text.{Text, text_eq, text_eq_iff, text_eq_refl}
use openbao_attested_unseal.Broker.Challenge.{
  StoredChallenge, Presented, lookup, put, check_stored, valid_challenge, challenge_nonce,
  consume_challenge,
}
use openbao_attested_unseal.Broker.Challenge.Scope.{check_stored-ok}
use openbao_attested_unseal.Broker.ChallengeRows.{
  RowText, RowTextLaws, ChallengeRow, is_some, find_row, with_consumed, mark_consumed,
  count_consumed, check_row, row_nonce, consume_row,
}

-- The rows have distinct primary keys.
abbrev pub AreDistinctRows : List ChallengeRow → Type 0
AreDistinctRows [] = Unit
AreDistinctRows (r ∷ rs) = (find_row r.challenge_id rs ≡ none) × AreDistinctRows rs

mark_consumed-none :
    (id t : Text) (rs : List ChallengeRow) → find_row id rs ≡ none → mark_consumed id t rs ≡ rs
unfolding find_row mark_consumed
mark_consumed-none id t [] h = refl
mark_consumed-none id t (r ∷ rs) h =
    let differs : text_eq r.challenge_id id ≡ false = ground arith in
    rw differs (ap (λ l. r ∷ l) (mark_consumed-none id t rs (ground arith)))

count_consumed-find_row :
    (id : Text) (rs : List ChallengeRow) (r : ChallengeRow)
    → find_row id rs ≡ some r
    → is_some r.consumed_at ≡ false
    → (count_consumed id rs == 0) ≡ false
unfolding find_row count_consumed
count_consumed-find_row id [] r h n = cc
count_consumed-find_row id (q ∷ rs) r h n = ground (arith, count_consumed-find_row id rs r)

-- The same outcome: both fail with one error, or both give states that are related.
abbrev pub SameOutcome {ℓ κ} :
    {A : Type ℓ} {B : Type κ} → (A → B → Type 0) → Result A → Result B → Type 0
SameOutcome R (ok a) (ok b) = R a b
SameOutcome R (err x) (err y) = x ≡ y
SameOutcome R _ _ = ⊥

module _ (x : RowText) (laws : RowTextLaws x) where
  -- A row holds a stored challenge.
  pub record Holds (r : ChallengeRow) (c : StoredChallenge) : Type 0 where
    pub id : r.challenge_id ≡ c.challenge.id
    pub nonce : r.nonce ≡ c.challenge.nonce
    pub cluster : r.cluster_id ≡ c.challenge.cluster_id
    pub subject : r.subject_id ≡ c.challenge.subject
    pub operation : r.operation ≡ x.operation_name c.challenge.operation
    pub expires : r.expires_at ≡ x.format_time c.challenge.expires_at
    pub consumed : is_some r.consumed_at ≡ c.consumed

  -- The table holds the challenges of the store, in their order.
  abbrev pub Represents : List ChallengeRow → List StoredChallenge → Type 0
  Represents [] [] = Unit
  Represents (r ∷ rs) (c ∷ cs) = Holds r c × Represents rs cs
  Represents _ _ = ⊥

  pub find_row-lookup :
      (id : Text) (rs : List ChallengeRow) (cs : List StoredChallenge)
      → Represents rs cs
      → ((find_row id rs ≡ none) × (lookup id cs ≡ none))
        ⊎ ((r : ChallengeRow) × (c : StoredChallenge) × (find_row id rs ≡ some r)
            × (lookup id cs ≡ some c)
            × Holds r c)
  unfolding find_row lookup
  find_row-lookup id [] [] h = inl (refl, refl)
  find_row-lookup id [] (c ∷ cs) h = absurd h
  find_row-lookup id (r ∷ rs) [] h = absurd h
  find_row-lookup id (r ∷ rs) (c ∷ cs) (h, hs) = elim (Bool-cases (text_eq c.challenge.id id)) [
    | inl same ↦ inr (r, c, rw h.id (rw same refl), rw same refl, h)
    | inr differs ↦ elim (find_row-lookup id rs cs hs) [
      | inl (nr, nc) ↦ inl (rw h.id (rw differs nr), rw differs nc)
      | inr (q, d, fq, fd, held) ↦ inr (q, d, rw h.id (rw differs fq), rw differs fd, held)
    ]
  ]

  same_name : (a b : ℕ) → text_eq (x.operation_name a) (x.operation_name b) ≡ (a == b)
  same_name a b = elim (Bool-cases (a == b)) [
    | inl same ↦ let e : a ≡ b = ground arith in rw same (rw e (text_eq_refl (x.operation_name b)))
    | inr differs ↦ elim (Bool-cases (text_eq (x.operation_name a) (x.operation_name b))) [
      | inr apart ↦ apart ∙ sym differs
      | inl matches ↦
          let e : a ≡ b =
            laws.names_differ a b
              ((text_eq_iff (x.operation_name a) (x.operation_name b)).0 matches) in
          absurd (ground arith)
    ]
  ]

  check_row-check_stored :
      (p : Presented) (r : ChallengeRow) (c : StoredChallenge)
      → Holds r c
      → check_row x p r ≡ (check_stored p c >>= λ _. ok tt)
  unfolding check_row check_stored
  check_row-check_stored p r c h = rw h.cluster (
      rw h.subject (
        rw h.operation (
          rw (same_name c.challenge.operation p.operation) (
            rw h.consumed
              (rw h.expires (rw (laws.parse_time-format c.challenge.expires_at) (ground arith)))))))

  -- ChallengeNonce answers on the table what it answers on the store that the table holds, errors
  -- included.
  pub row_nonce-challenge_nonce :
      (p : Presented) (rs : List ChallengeRow) (cs : List StoredChallenge)
      → Represents rs cs
      → row_nonce x p rs ≡ challenge_nonce p cs
  unfolding row_nonce challenge_nonce valid_challenge
  row_nonce-challenge_nonce p rs cs h = elim (find_row-lookup p.id rs cs h) [
    | inl (nr, nc) ↦ rw (nr, row_nonce) (rw (nc, challenge_nonce, valid_challenge) refl)
    | inr (r, c, fr, fc, held) ↦
        rw (fr, row_nonce)
          (rw (fc, challenge_nonce, valid_challenge)
            (rw (check_row-check_stored p r c held) (after r c held (check_stored p c) refl)))
  ]
    where
      after :
          (r : ChallengeRow) (c : StoredChallenge)
          → Holds r c
          → (found : Result StoredChallenge) → check_stored p c ≡ found
          → ((found >>= λ _. ok tt) >> ok r.nonce) ≡ (found >>= λ d. ok d.challenge.nonce)
      after r c held (err e) eq = refl
      after r c held (ok d) eq = ap ok (
          held.nonce ∙ ap (λ (k : StoredChallenge). k.challenge.nonce) (check_stored-ok p c d eq).0)

  Holds-with_consumed :
      (t : Text) (r : ChallengeRow) (c : StoredChallenge)
      → Holds r c
      → Holds (with_consumed t r) (record { challenge = c.challenge; consumed = true })
  Holds-with_consumed t r c h = record {
    id = h.id;
    nonce = h.nonce;
    cluster = h.cluster;
    subject = h.subject;
    operation = h.operation;
    expires = h.expires;
    consumed = refl;
  }

  Represents-mark_consumed :
      (id t : Text) (rs : List ChallengeRow) (cs : List StoredChallenge) (r : ChallengeRow)
      (c : StoredChallenge)
      → AreDistinctRows rs
      → Represents rs cs
      → find_row id rs ≡ some r
      → lookup id cs ≡ some c
      → is_some r.consumed_at ≡ false
      → Represents
          (mark_consumed id t rs)
          (put id (record { challenge = c.challenge; consumed = true }) cs)
  unfolding find_row lookup mark_consumed put
  Represents-mark_consumed id t [] [] r c d h fr fc n = absurd (cc)
  Represents-mark_consumed id t [] (e ∷ cs) r c d h fr fc n = absurd h
  Represents-mark_consumed id t (q ∷ rs) [] r c d h fr fc n = absurd h
  Represents-mark_consumed id t (q ∷ rs) (e ∷ cs) r c (d, ds) (h, hs) fr fc n =
      elim (Bool-cases (text_eq e.challenge.id id)) [
        | inl same ↦
            let hit : text_eq q.challenge_id id ≡ true = rw h.id same in
            let er : q ≡ r = ground arith in
            let ec : e ≡ c = ground arith in
            let absent : find_row id rs ≡ none =
              subst (λ i. find_row i rs ≡ none) ((text_eq_iff q.challenge_id id).0 hit) d in
            let free : is_some q.consumed_at ≡ false = rw er n in
            rw (sym ec) (
              rw same (
                rw hit (
                  rw free
                    (Holds-with_consumed t q e h, rw (mark_consumed-none id t rs absent) hs))))
        | inr differs ↦
            let miss : text_eq q.challenge_id id ≡ false = rw h.id differs in
            rw differs (
              rw miss
                (h, Represents-mark_consumed id t rs cs r c ds hs (ground arith) (ground arith) n))
      ]

  consume_row-lem :
      (p : Presented) (rs : List ChallengeRow) (cs : List StoredChallenge) (r : ChallengeRow)
      (c : StoredChallenge)
      → AreDistinctRows rs
      → Represents rs cs
      → find_row p.id rs ≡ some r
      → lookup p.id cs ≡ some c
      → Holds r c
      → (found : Result StoredChallenge) → check_stored p c ≡ found
      → SameOutcome Represents (consume_row x p rs) (consume_challenge p cs)
  unfolding consume_row consume_challenge valid_challenge
  consume_row-lem p rs cs r c d h fr fc held (err e) eq =
      rw (fr, consume_row)
        (rw (check_row-check_stored p r c held)
          (rw (fc, consume_challenge, valid_challenge) (rw eq refl)))
  consume_row-lem p rs cs r c d h fr fc held (ok k) eq =
      let (same, _, _, _, unused, _) = check_stored-ok p c k eq in
      let free : is_some r.consumed_at ≡ false = held.consumed ∙ unused in
      rw (fr, consume_row)
        (rw (check_row-check_stored p r c held) (
          rw (fc, consume_challenge, valid_challenge)
            (rw eq (
              rw (count_consumed-find_row p.id rs r fr free) (
                rw (sym same) (
                  Represents-mark_consumed p.id (x.format_time p.now) rs cs r c d h fr fc free))))))

  -- ConsumeChallenge on the table and on the store that it holds fail with the same error, or succeed
  -- together and leave a table that holds the store left.
  pub consume_row-consume_challenge :
      (p : Presented) (rs : List ChallengeRow) (cs : List StoredChallenge)
      → AreDistinctRows rs
      → Represents rs cs
      → SameOutcome Represents (consume_row x p rs) (consume_challenge p cs)
  unfolding consume_row consume_challenge valid_challenge
  consume_row-consume_challenge p rs cs d h = elim (find_row-lookup p.id rs cs h) [
    | inl (nr, nc) ↦ rw (nr, consume_row) (rw (nc, consume_challenge, valid_challenge) refl)
    | inr (r, c, fr, fc, held) ↦ consume_row-lem p rs cs r c d h fr fc held (check_stored p c) refl
  ]
