-- ===== src/Broker/Subjects.antt =====
-- internal/broker/sqlite.go: the table subjects. `clusters` are the rows of the table that its foreign
-- key refers to; the times of a row are never read.
pub mod Revocation
use openbao_attested_unseal.Prelude.{
  ◌≡◌, ◌≢◌, refl, sym, ◌∙◌, Bool, true, false, ◌&&◌, Option, none, some, List, [], ◌∷◌, arith,
  if◌then◌else◌, inl, inr, Bool-cases, Option-cases,
}
use openbao_attested_unseal.Prelude.Result.{
  Result, ok, err, subject_not_found, subject_revoked, other, ◌>>=◌, ◌>>◌, guard,
}
use openbao_attested_unseal.Prelude.Text.{Text, text_eq, text_eq_iff, text_eq_refl}

pub record Subject : Type 0 where
  pub cluster_id : Text
  pub subject : Text
  pub revoked : Bool

abbrev pub is_subject : Text → Text → Subject → Bool
is_subject cluster_id subject s = text_eq s.cluster_id cluster_id && text_eq s.subject subject

unfoldable pub find_subject : Text → Text → List Subject → Option Subject
find_subject cluster_id subject [] = none
find_subject cluster_id subject (s ∷ ss) =
    if is_subject cluster_id subject s then some s else find_subject cluster_id subject ss

-- SQLiteStore.Subject
unfoldable pub load_subject : Text → Text → List Subject → Result Subject
load_subject cluster_id subject subjects = elim (find_subject cluster_id subject subjects) [
  | none ↦ err subject_not_found
  | some s ↦ if s.revoked then err subject_revoked else ok s
]

unfoldable pub has_text : Text → List Text → Bool
has_text t [] = false
has_text t (u ∷ us) = if text_eq u t then true else has_text t us

-- InsertSubject: INSERT OR IGNORE, which a missing cluster still refuses
unfoldable pub insert_subject : List Text → Text → Text → List Subject → Result (List Subject)
insert_subject clusters cluster_id subject subjects =
    elim (find_subject cluster_id subject subjects) [
      | some _ ↦ ok subjects
      | none ↦ do
        guard (has_text cluster_id clusters) other
        ok (record { cluster_id = cluster_id; subject = subject; revoked = false } ∷ subjects)
    ]

unfoldable pub mark_revoked : Text → Text → List Subject → List Subject
mark_revoked cluster_id subject [] = []
mark_revoked cluster_id subject (s ∷ ss) =
    (if is_subject cluster_id subject s
      then record { cluster_id = s.cluster_id; subject = s.subject; revoked = true }
      else s)
    ∷ mark_revoked cluster_id subject ss

-- RevokeSubject
unfoldable pub revoke_subject : Text → Text → List Subject → Result (List Subject)
revoke_subject cluster_id subject subjects = elim (find_subject cluster_id subject subjects) [
  | none ↦ err subject_not_found
  | some _ ↦ ok (mark_revoked cluster_id subject subjects)
]
