-- ===== src/Broker/Config/Identities.antt =====
-- internal/broker/config.go: the checks of the control-plane identities.
use openbao_attested_unseal.Prelude.{
  Bool, false, not, is_nil, ◌&&◌, ◌||◌, List, [], ◌∷◌, if◌then◌else◌,
}
use openbao_attested_unseal.Prelude.Result.{Result, ok, other, ◌>>=◌, ◌>>◌, guard, wrap_err}
use openbao_attested_unseal.Prelude.Text.{Text, text_eq}
use openbao_attested_unseal.Prelude.Trim.{trim_space}
use openbao_attested_unseal.Keyring.Key.{validate_identifier}
use openbao_attested_unseal.Nodeevidence.Enrollment.{canonical_sha256_digest}
use openbao_attested_unseal.Broker.Subjects.{has_text}
use openbao_attested_unseal.Broker.EnrollmentService.{
  ControlPlaneIdentity, role_node_evidence_admin,
}
use openbao_attested_unseal.Broker.Config.{Config}

-- The loop over the roles of an identity, with the roles seen so far.
unfoldable pub validate_roles : List Text → List Text → Result (Unit {0})
validate_roles seen [] = ok tt
validate_roles seen (role ∷ roles) = do
  guard (text_eq role role_node_evidence_admin) other
  guard (not (has_text role seen)) other
  validate_roles (role ∷ seen) roles

-- The loop over the clusters of an identity, with the clusters seen so far.
unfoldable pub validate_clusters : List Text → List Text → Result (Unit {0})
validate_clusters seen [] = ok tt
validate_clusters seen (cluster_id ∷ cluster_ids) = do
  guard (text_eq cluster_id (trim_space cluster_id)) other
  validate_identifier cluster_id
  guard (not (has_text cluster_id seen)) other
  validate_clusters (cluster_id ∷ seen) cluster_ids

-- validateControlPlaneIdentity
unfoldable pub validate_identity : Text → ControlPlaneIdentity → Result (Unit {0})
validate_identity certificate_hash identity = do
  canonical ← wrap_err (canonical_sha256_digest certificate_hash) other
  guard (text_eq canonical certificate_hash) other
  guard (not (is_nil identity.roles)) other
  validate_roles [] identity.roles
  guard (not (is_nil identity.cluster_ids)) other
  validate_clusters [] identity.cluster_ids

unfoldable pub validate_identities : List (Text × ControlPlaneIdentity) → Result (Unit {0})
validate_identities [] = ok tt
validate_identities ((certificate_hash, identity) ∷ identities) = do
  validate_identity certificate_hash identity
  validate_identities identities

-- validateControlPlane
unfoldable pub validate_control_plane : Config → Result (Unit {0})
validate_control_plane c = if is_nil c.identities then ok tt else (do
  guard (not c.allow_plaintext_for_tests) other
  guard c.require_client_cert other
  validate_identities c.identities)

unfoldable pub has_role : Text → Text → List (Text × ControlPlaneIdentity) → Bool
has_role role cluster_id [] = false
has_role role cluster_id ((_, identity) ∷ identities) =
    has_text role identity.roles && has_text cluster_id identity.cluster_ids
    || has_role role cluster_id identities

-- controlPlaneHasRole
abbrev pub control_plane_has_role : Config → Text → Text → Bool
control_plane_has_role c role cluster_id = has_role role cluster_id c.identities
