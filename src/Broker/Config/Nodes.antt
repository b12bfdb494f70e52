-- ===== src/Broker/Config/Nodes.antt =====
-- internal/broker/config.go: the checks of the configuration of Kubernetes and of node evidence.
use openbao_attested_unseal.Prelude.{Bool, not, ◌&&◌, List, [], ◌∷◌, if◌then◌else◌}
use openbao_attested_unseal.Prelude.Result.{Result, ok, other, ◌>>=◌, ◌>>◌, guard}
use openbao_attested_unseal.Prelude.Int.{ℤ, pos, ltb_ℤ}
use openbao_attested_unseal.Prelude.Text.{Text, text_eq, is_empty}
use openbao_attested_unseal.Prelude.Trim.{trim_space}
use openbao_attested_unseal.Prelude.Order.{text_leb, sort}
use openbao_attested_unseal.Keyring.Key.{validate_identifier}
use openbao_attested_unseal.Nodeevidence.Evidence.{provider_tpm2_quote}
use openbao_attested_unseal.Broker.Subjects.{has_text}
use openbao_attested_unseal.Broker.EnrollmentService.{role_node_evidence_admin}
use openbao_attested_unseal.Broker.Admin.{default_node_evidence_ttl}
use openbao_attested_unseal.Broker.Config.{
  KubernetesConfig, Config, seconds_or, default_api_timeout,
}
use openbao_attested_unseal.Broker.Config.Identities.{control_plane_has_role}

unfoldable pub trim_all : List Text → List Text
trim_all [] = []
trim_all (t ∷ ts) = trim_space t ∷ trim_all ts

-- slices.Compact
unfoldable pub compact : List Text → List Text
compact [] = []
compact (t ∷ []) = t ∷ []
compact (t ∷ (u ∷ us)) = let rest = compact (u ∷ us) in if text_eq t u then rest else t ∷ rest

-- normalizedProviderIDs
unfoldable pub normalized_provider_ids : List Text → List Text
normalized_provider_ids providers = compact (sort text_leb (trim_all providers))

-- The loop of validateNodeEvidenceProviders.
unfoldable pub validate_providers : List Text → Result (Unit {0})
validate_providers [] = ok tt
validate_providers (provider ∷ providers) = do
  guard (not (is_empty (trim_space provider))) other
  guard (text_eq (trim_space provider) provider_tpm2_quote) other
  validate_providers providers

-- validateNodeEvidenceProviders; slices.BinarySearch finds what a sorted list holds
unfoldable pub validate_node_evidence_providers : List Text → Result Bool
validate_node_evidence_providers providers = do
  validate_providers providers
  ok (has_text provider_tpm2_quote (normalized_provider_ids providers))

-- validateTPMNodeEvidenceTransport
unfoldable pub validate_tpm_transport : Bool → Bool → Bool → Bool → Result (Unit {0})
validate_tpm_transport tpm_enabled require_client_cert allow_plaintext has_node_evidence_admin = do
  guard (not (tpm_enabled && allow_plaintext)) other
  guard (not (tpm_enabled && not require_client_cert)) other
  guard (not (tpm_enabled && not has_node_evidence_admin)) other

-- validateKubernetesNodeEvidence
unfoldable pub validate_kubernetes_node_evidence :
    KubernetesConfig → Bool → Bool → Bool → Result (Unit {0})
validate_kubernetes_node_evidence k require_client_cert allow_plaintext has_node_evidence_admin = do
  tpm_enabled ← validate_node_evidence_providers k.node_evidence_publish_providers
  validate_tpm_transport tpm_enabled require_client_cert allow_plaintext has_node_evidence_admin

-- KubernetesConfig.NodeEvidenceTTL and KubernetesConfig.APITimeout
abbrev pub kubernetes_evidence_ttl : KubernetesConfig → ℤ
kubernetes_evidence_ttl k = seconds_or k.node_evidence_ttl_seconds default_node_evidence_ttl

abbrev pub api_timeout : KubernetesConfig → ℤ
api_timeout k = seconds_or k.api_timeout_seconds default_api_timeout

-- validateEnabledKubernetes
unfoldable pub validate_enabled_kubernetes : KubernetesConfig → Result (Unit {0})
validate_enabled_kubernetes k = do
  guard (not (is_empty (trim_space k.token_review_audience))) other
  guard (not (is_empty (trim_space k.namespace))) other
  validate_identifier (trim_space k.namespace)
  guard (not (is_empty (trim_space k.service_account))) other
  validate_identifier (trim_space k.service_account)
  guard (ltb_ℤ (pos 0) (kubernetes_evidence_ttl k)) other
  guard (ltb_ℤ (pos 0) (api_timeout k)) other

-- Config.validateKubernetes
unfoldable pub validate_kubernetes : Config → Result (Unit {0})
validate_kubernetes c = do
  let k = c.kubernetes
  validate_kubernetes_node_evidence k c.require_client_cert c.allow_plaintext_for_tests
      (control_plane_has_role c role_node_evidence_admin c.cluster_id)
  guard (not (ltb_ℤ k.node_evidence_ttl_seconds (pos 0))) other
  guard (not (ltb_ℤ k.node_evidence_retention_seconds (pos 0))) other
  guard (not (ltb_ℤ k.api_timeout_seconds (pos 0))) other
  if not k.enabled then ok tt else validate_enabled_kubernetes k
