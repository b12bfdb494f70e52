-- ===== src/Broker/Subjects/Revocation.antt =====
-- sqlite.go: a revocation of a subject is final.
use openbao_attested_unseal.Prelude.{
  ◌≡◌, refl, true, false, none, some, List, [], ◌∷◌, arith, ◌⊎◌, inl, inr, Bool-cases, Option-cases,
}
use openbao_attested_unseal.Prelude.Result.{ok, err, subject_revoked}
use openbao_attested_unseal.Prelude.Text.{Text, text_eq_iff}
use openbao_attested_unseal.Broker.Subjects.{
  Subject, is_subject, find_subject, load_subject, insert_subject, mark_revoked, revoke_subject,
}

-- The operations that change the table.
pub data Step (clusters : List Text) : List Subject → List Subject → Type 0 where
  insert :
      {ss ss' : List Subject} (c s : Text)
      → insert_subject clusters c s ss ≡ ok ss'
      → Step clusters ss ss'
  revoke :
      {ss ss' : List Subject} (c s : Text) → revoke_subject c s ss ≡ ok ss' → Step clusters ss ss'

pub data Steps (clusters : List Text) : List Subject → List Subject → Type 0 where
  done : {ss : List Subject} → Steps clusters ss ss
  step :
      {ss ss' ss'' : List Subject}
      → Step clusters ss ss'
      → Steps clusters ss' ss''
      → Steps clusters ss ss''

find_subject-mark_revoked :
    (c s d t : Text) (ss : List Subject) (f : Subject)
    → find_subject c s ss ≡ some f
    → (g : Subject) × (find_subject c s (mark_revoked d t ss) ≡ some g)
      × (f.revoked ≡ true → g.revoked ≡ true)
unfolding find_subject mark_revoked
find_subject-mark_revoked c s d t [] f h = absurd (cc)
find_subject-mark_revoked c s d t (u ∷ ss) f h = elim (Bool-cases (is_subject c s u)) [
  | inl here ↦ elim (Bool-cases (is_subject d t u)) [
    | inl hit ↦ (
      record { cluster_id = u.cluster_id; subject = u.subject; revoked = true },
      rw hit (rw here refl),
      λ e. refl,
    )
    | inr missed ↦ (u, rw missed (rw here refl), λ e. ground arith)
  ]
  | inr later ↦
      let (g, found, kept) = find_subject-mark_revoked c s d t ss f (ground arith) in
      elim (Bool-cases (is_subject d t u)) [
        | inl hit ↦ (g, rw hit (rw later found), kept)
        | inr missed ↦ (g, rw missed (rw later found), kept)
      ]
]

find_subject-revoked :
    (c s : Text) (ss : List Subject) (f : Subject)
    → find_subject c s ss ≡ some f
    → (g : Subject) × (find_subject c s (mark_revoked c s ss) ≡ some g) × (g.revoked ≡ true)
unfolding find_subject mark_revoked
find_subject-revoked c s [] f h = absurd (cc)
find_subject-revoked c s (u ∷ ss) f h = elim (Bool-cases (is_subject c s u)) [
  | inl here ↦ (
    record { cluster_id = u.cluster_id; subject = u.subject; revoked = true },
    rw here (rw here refl),
    refl,
  )
  | inr later ↦
      let (g, found, kept) = find_subject-revoked c s ss f (ground arith) in
      (g, rw later (rw later found), kept)
]

-- The subject is in the table and revoked.
abbrev pub IsRevoked : Text → Text → List Subject → Type 0
IsRevoked c s ss = (f : Subject) × (find_subject c s ss ≡ some f) × (f.revoked ≡ true)

insert_subject-ok :
    (clusters : List Text) (d t : Text) (ss ss' : List Subject)
    → insert_subject clusters d t ss ≡ ok ss'
    → (ss' ≡ ss)
      ⊎ ((find_subject d t ss ≡ none)
          × (ss' ≡ record { cluster_id = d; subject = t; revoked = false } ∷ ss))
unfolding insert_subject
insert_subject-ok clusters d t ss ss' h = elim (Option-cases (find_subject d t ss)) [
  | inl missing ↦ inr (missing, ground arith)
  | inr (f, found) ↦ inl (ground arith)
]

find_subject-cons :
    (c s d t : Text) (ss : List Subject) (f : Subject)
    → find_subject c s ss ≡ some f
    → find_subject d t ss ≡ none
    → find_subject c s (record { cluster_id = d; subject = t; revoked = false } ∷ ss) ≡ some f
unfolding find_subject
find_subject-cons c s d t ss f found missing =
    let new : Subject = record { cluster_id = d; subject = t; revoked = false } in
    elim (Bool-cases (is_subject c s new)) [
      | inl same ↦
          let ed : d ≡ c = ground (arith, text_eq_iff d c) in
          let et : t ≡ s = ground (arith, text_eq_iff t s) in
          absurd (ground (arith, found, (rw (ed, et) at missing)))
      | inr differs ↦ rw differs found
    ]

revoke_subject-ok :
    (d t : Text) (ss ss' : List Subject)
    → revoke_subject d t ss ≡ ok ss'
    → ss' ≡ mark_revoked d t ss
unfolding revoke_subject
revoke_subject-ok d t ss ss' h = elim (Option-cases (find_subject d t ss)) [
  | inl missing ↦ absurd (ground arith)
  | inr (f, found) ↦ ground arith
]

IsRevoked-Step :
    (clusters : List Text) (c s : Text) (ss ss' : List Subject)
    → IsRevoked c s ss
    → Step clusters ss ss'
    → IsRevoked c s ss'
IsRevoked-Step clusters c s ss ss' (f, found, r) (insert d t h) =
    elim (insert_subject-ok clusters d t ss ss' h) [
      | inl same ↦ rw same (f, found, r)
      | inr (missing, added) ↦ rw added (f, find_subject-cons c s d t ss f found missing, r)
    ]
IsRevoked-Step clusters c s ss ss' (f, found, r) (revoke d t h) =
    let e : ss' ≡ mark_revoked d t ss = revoke_subject-ok d t ss ss' h in
    let (g, again, kept) = find_subject-mark_revoked c s d t ss f found in rw e (g, again, kept r)

IsRevoked-Steps :
    (clusters : List Text) (c s : Text) (ss ss' : List Subject)
    → IsRevoked c s ss
    → Steps clusters ss ss'
    → IsRevoked c s ss'
IsRevoked-Steps clusters c s ss ss' r done = r
IsRevoked-Steps clusters c s ss ss' r (step {ss' = tt'} one rest) =
    IsRevoked-Steps clusters c s tt' ss' (IsRevoked-Step clusters c s ss tt' r one) rest

-- Once a subject has been revoked, it is reported as revoked after every sequence of inserts and
-- revocations, of that subject too.
pub load_subject-revoke_subject :
    (clusters : List Text) (c s : Text) (ss ss' ss'' : List Subject)
    → revoke_subject c s ss ≡ ok ss'
    → Steps clusters ss' ss''
    → load_subject c s ss'' ≡ err subject_revoked
unfolding load_subject revoke_subject
load_subject-revoke_subject clusters c s ss ss' ss'' h run =
    let (f, found, r) = IsRevoked-Steps clusters c s ss' ss'' (first ss ss' h) run in
    rw (found, load_subject) (rw r refl)
  where
    first : (ss ss' : List Subject) → revoke_subject c s ss ≡ ok ss' → IsRevoked c s ss'
    first ss ss' h = elim (Option-cases (find_subject c s ss)) [
      | inl missing ↦ absurd (cc (rw (missing, revoke_subject) at h))
      | inr (f, found) ↦
          let (g, again, r) = find_subject-revoked c s ss f found in
          rw (revoke_subject-ok c s ss ss' h) (g, again, r)
    ]
