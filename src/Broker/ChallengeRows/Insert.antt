-- ===== src/Broker/ChallengeRows/Insert.antt =====
-- CreateChallenge on the table challenges, and the primary key under the statements.
use openbao_attested_unseal.Prelude.{
  ◌≡◌, refl, ap, true, false, none, List, [], ◌∷◌, ◌++◌, arith, inl, inr, Bool-cases, Option-cases,
}
use openbao_attested_unseal.Prelude.Result.{ok}
use openbao_attested_unseal.Prelude.Text.{Text, text_eq, text_eq_iff, text_eq_refl, is_empty}
use openbao_attested_unseal.Prelude.Space.{is_blank}
use openbao_attested_unseal.Broker.Challenge.{
  Challenge, StoredChallenge, Presented, lookup, put, create_challenge,
}
use openbao_attested_unseal.Broker.Subjects.{has_text}
use openbao_attested_unseal.Broker.ChallengeRows.{
  RowText, RowTextLaws, ChallengeRow, find_row, has_nonce, consumes, mark_consumed,
  insert_challenge, consume_row,
}
use openbao_attested_unseal.Broker.ChallengeRows.Refine.{
  AreDistinctRows, SameOutcome, Holds, Represents, find_row-lookup,
}

find_row-mark_consumed :
    (i id t : Text) (rs : List ChallengeRow)
    → find_row i rs ≡ none
    → find_row i (mark_consumed id t rs) ≡ none
unfolding find_row mark_consumed
find_row-mark_consumed i id t [] h = refl
find_row-mark_consumed i id t (r ∷ rs) h = elim (Bool-cases (consumes id r)) [
  | inl hit ↦ rw hit (ground (arith, find_row-mark_consumed i id t rs))
  | inr missed ↦ rw missed (ground (arith, find_row-mark_consumed i id t rs))
]

AreDistinctRows-mark_consumed :
    (id t : Text) (rs : List ChallengeRow)
    → AreDistinctRows rs
    → AreDistinctRows (mark_consumed id t rs)
unfolding mark_consumed
AreDistinctRows-mark_consumed id t [] h = tt
AreDistinctRows-mark_consumed id t (r ∷ rs) (h, hs) = elim (Bool-cases (consumes id r)) [
  | inl hit ↦
      rw hit
        (find_row-mark_consumed r.challenge_id id t rs h, AreDistinctRows-mark_consumed id t rs hs)
  | inr missed ↦
      rw missed
        (find_row-mark_consumed r.challenge_id id t rs h, AreDistinctRows-mark_consumed id t rs hs)
]

find_row-snoc :
    (i : Text) (rs : List ChallengeRow) (r : ChallengeRow)
    → find_row i rs ≡ none
    → text_eq r.challenge_id i ≡ false
    → find_row i (rs ++ r ∷ []) ≡ none
unfolding find_row
find_row-snoc i [] r h n = rw n refl
find_row-snoc i (q ∷ rs) r h n = ground (arith, find_row-snoc i rs r)

AreDistinctRows-snoc :
    (rs : List ChallengeRow) (r : ChallengeRow)
    → AreDistinctRows rs
    → find_row r.challenge_id rs ≡ none
    → AreDistinctRows (rs ++ r ∷ [])
unfolding find_row
AreDistinctRows-snoc [] r h n = (refl, tt)
AreDistinctRows-snoc (q ∷ rs) r (h, hs) n =
    elim (Bool-cases (text_eq r.challenge_id q.challenge_id)) [
      | inl same ↦
          let e = (text_eq_iff r.challenge_id q.challenge_id).0 same in
          absurd (ground (arith, text_eq_refl q.challenge_id, e))
      | inr differs ↦
          (find_row-snoc q.challenge_id rs r h differs, AreDistinctRows-snoc rs r hs (ground arith))
    ]

put-none :
    (id : Text) (c : StoredChallenge) (cs : List StoredChallenge)
    → lookup id cs ≡ none
    → put id c cs ≡ cs ++ c ∷ []
unfolding lookup put
put-none id c [] h = refl
put-none id c (d ∷ cs) h =
    let differs : text_eq d.challenge.id id ≡ false = ground arith in
    rw differs (ap (λ l. d ∷ l) (put-none id c cs (ground arith)))

module _ (x : RowText) (laws : RowTextLaws x) where
  Represents-snoc :
      (rs : List ChallengeRow) (cs : List StoredChallenge) (r : ChallengeRow) (c : StoredChallenge)
      → Represents x laws rs cs
      → Holds x laws r c
      → Represents x laws (rs ++ r ∷ []) (cs ++ c ∷ [])
  Represents-snoc [] [] r c h held = (held, tt)
  Represents-snoc [] (d ∷ cs) r c h held = absurd h
  Represents-snoc (q ∷ rs) [] r c h held = absurd h
  Represents-snoc (q ∷ rs) (d ∷ cs) r c (h, hs) held = (h, Represents-snoc rs cs r c hs held)

  -- The row that CreateChallenge writes.
  abbrev row_of : Challenge → ChallengeRow
  row_of c = record {
    challenge_id = c.id;
    nonce = c.nonce;
    cluster_id = c.cluster_id;
    subject_id = c.subject;
    operation = x.operation_name c.operation;
    expires_at = x.format_time c.expires_at;
    created_at = x.format_time c.created_at;
    consumed_at = none;
  }

  -- A challenge with an id and a nonce, of a known cluster and with a nonce that the table does not
  -- hold, is created on the table and on the store that it holds with the same outcome.
  pub insert_challenge-create_challenge :
      (clusters : List Text) (c : Challenge) (rs : List ChallengeRow) (cs : List StoredChallenge)
      → Represents x laws rs cs
      → is_blank c.id ≡ false
      → is_empty c.nonce ≡ false
      → has_nonce c.nonce rs ≡ false
      → has_text c.cluster_id clusters ≡ true
      → SameOutcome (Represents x laws) (insert_challenge x clusters c rs) (create_challenge c cs)
  unfolding insert_challenge create_challenge
  insert_challenge-create_challenge clusters c rs cs h named given fresh known =
      elim (find_row-lookup x laws c.id rs cs h) [
        | inl (nr, nc) ↦
            let stored : StoredChallenge = record { challenge = c; consumed = false } in
            let held : Holds x laws (row_of c) stored = record {
              id = refl;
              nonce = refl;
              cluster = refl;
              subject = refl;
              operation = refl;
              expires = refl;
              consumed = refl;
            } in
            rw (named, create_challenge)
              (rw given (
                rw (fresh, insert_challenge)
                  (rw known (
                    rw nr (
                      rw nc (
                        rw (put-none c.id stored cs nc)
                          (Represents-snoc rs cs (row_of c) stored h held)))))))
        | inr (r, d, fr, fd, held) ↦
            rw (named, create_challenge)
              (rw given (rw (fresh, insert_challenge) (rw known (rw fr (rw fd refl)))))
      ]

  -- The statements on the table challenges keep its primary key.
  pub AreDistinctRows-consume_row :
      (p : Presented) (rs rs' : List ChallengeRow)
      → AreDistinctRows rs
      → consume_row x p rs ≡ ok rs'
      → AreDistinctRows rs'
  unfolding consume_row
  AreDistinctRows-consume_row p rs rs' d h = elim (Option-cases (find_row p.id rs)) [
    | inl missing ↦ absurd (ground arith)
    | inr (r, found) ↦
        let e : mark_consumed p.id (x.format_time p.now) rs ≡ rs' = ground arith in
        rw e at (AreDistinctRows-mark_consumed p.id (x.format_time p.now) rs d)
  ]

  pub AreDistinctRows-insert_challenge :
      (clusters : List Text) (c : Challenge) (rs rs' : List ChallengeRow)
      → AreDistinctRows rs
      → insert_challenge x clusters c rs ≡ ok rs'
      → AreDistinctRows rs'
  unfolding insert_challenge
  AreDistinctRows-insert_challenge clusters c rs rs' d h = elim (Option-cases (find_row c.id rs)) [
    | inr (r, taken) ↦ absurd (ground arith)
    | inl free ↦
        let e : rs ++ row_of c ∷ [] ≡ rs' = ground arith in
        rw e at (AreDistinctRows-snoc rs (row_of c) d free)
  ]
