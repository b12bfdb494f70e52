-- ===== src/Broker/EnrollmentService/Admitted.antt =====
-- internal/broker/enrollment_service.go: whom the service admits.
use openbao_attested_unseal.Prelude.{
  ◌≡◌, refl, sym, ◌∙◌, ◌⊎◌, inl, inr, true, Option, none, some, Bool-cases, Option-cases,
}
use openbao_attested_unseal.Prelude.Text.{Text}
use openbao_attested_unseal.Prelude.Trim.{trim_space}
use openbao_attested_unseal.Broker.Policy.{ErrorCode}
use openbao_attested_unseal.Broker.Subjects.{has_text}
use openbao_attested_unseal.Broker.EnrollmentService.{
  EnrollmentCall, EnrollmentService, ControlPlaneIdentity, Admission, admitted, turned_away, admit,
  authorize_admin, authorize_identity, find_identity, certificate_hash, role_node_evidence_admin,
  accepts_enrollment_cluster,
}

pub Admission-cases :
    (a : Admission)
    → ((actor : Text) × (a ≡ admitted actor))
      ⊎ ((actor : Text) × (code : ErrorCode) × (reason : Text) × (a
            ≡ turned_away actor code reason))
Admission-cases (admitted actor) = inl (actor, refl)
Admission-cases (turned_away actor code reason) = inr (actor, code, reason, refl)

module _ (sv : EnrollmentService) (c : EnrollmentCall) where
  -- The caller presents the certificate of an identity that is an administrator of a cluster, which the
  -- service is configured for.
  pub record IsAdmin (cluster_id actor : Text) : Type 0 where
    pub raw : Text
    pub identity : ControlPlaneIdentity
    pub presented : c.certificate ≡ some raw
    pub hashed : actor ≡ certificate_hash sv.tpm raw
    pub known : find_identity actor sv.identities ≡ some identity
    pub role : has_text role_node_evidence_admin identity.roles ≡ true
    pub scope : has_text (trim_space cluster_id) identity.cluster_ids ≡ true
    pub accepted : accepts_enrollment_cluster sv cluster_id ≡ true

  authorize_identity-admitted :
      (hash cluster_id actor : Text) (o : Option ControlPlaneIdentity)
      → authorize_identity hash o cluster_id ≡ admitted actor
      → (identity : ControlPlaneIdentity) × (o ≡ some identity)
        × (hash ≡ actor)
        × (has_text role_node_evidence_admin identity.roles ≡ true)
        × (has_text (trim_space cluster_id) identity.cluster_ids ≡ true)
  unfolding authorize_identity
  authorize_identity-admitted hash cluster_id actor none h = cc
  authorize_identity-admitted hash cluster_id actor (some identity) h =
      elim (Bool-cases (has_text role_node_evidence_admin identity.roles)) [
        | inr f ↦ absurd (cc (rw f at h))
        | inl f ↦ elim (Bool-cases (has_text (trim_space cluster_id) identity.cluster_ids)) [
          | inr g ↦ absurd (cc (rw (f, g) at h))
          | inl g ↦
              let same : admitted hash ≡ admitted actor = rw (f, g) at h in
              (identity, refl, cc, f, g)
        ]
      ]

  authorize_admin-admitted :
      (cluster_id actor : Text)
      → authorize_admin sv c cluster_id ≡ admitted actor
      → accepts_enrollment_cluster sv cluster_id ≡ true
      → IsAdmin cluster_id actor
  unfolding authorize_admin
  authorize_admin-admitted cluster_id actor h accepted = elim (Option-cases c.certificate) [
    | inl f ↦ absurd (cc (rw f at h))
    | inr (raw, f) ↦
        let hash = certificate_hash sv.tpm raw in
        let (identity, found, same, role, scope) =
          authorize_identity-admitted hash cluster_id actor (find_identity hash sv.identities)
            (rw f at h) in
        record {
          raw = raw;
          identity = identity;
          presented = f;
          hashed = sym same;
          known = rw (← same) found;
          role = role;
          scope = scope;
          accepted = accepted;
        }
  ]

  pub admit-IsAdmin :
      (cluster_id actor : Text) → admit sv c cluster_id ≡ admitted actor → IsAdmin cluster_id actor
  unfolding admit
  admit-IsAdmin cluster_id actor h = elim (Admission-cases (authorize_admin sv c cluster_id)) [
    | inr (hash, code, reason, f) ↦ absurd (cc (rw (f, admit) at h))
    | inl (hash, f) ↦ elim (Bool-cases (accepts_enrollment_cluster sv cluster_id)) [
      | inr g ↦ absurd (cc (rw (f, admit, g) at h))
      | inl g ↦ elim (Bool-cases sv.has_store) [
        | inr k ↦ absurd (cc (rw (f, admit, g, k) at h))
        | inl k ↦
            let same : admitted hash ≡ admitted actor = rw (f, admit, g, k) at h in
            authorize_admin-admitted cluster_id actor (f ∙ same) g
      ]
    ]
  ]
