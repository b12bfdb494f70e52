-- ===== src/Broker/Config/Trusted.antt =====
-- internal/broker/config.go and admin.go: the providers of node evidence that an accepted configuration
-- lets a broker publish, and what such a configuration has.
use mathlib.Core.List.{Memᴰ}
use openbao_attested_unseal.Prelude.{
  ◌≡◌, refl, ap, ◌∙◌, Bool, true, false, not, ◌&&◌, List, [], ◌∷◌, ◌⊎◌, inl, inr, arith, Bool-cases,
  is_nil,
}
use openbao_attested_unseal.Prelude.Result.{ok, other, >>=-ok, >>-ok, guard, wrap_err, wrap_err-ok}
use openbao_attested_unseal.Prelude.Text.{Text, text_eq, text_eq_iff}
use openbao_attested_unseal.Prelude.Trim.{trim_space}
use openbao_attested_unseal.Nodeevidence.Evidence.{provider_tpm2_quote, provider_fake_local}
use openbao_attested_unseal.Nodeevidence.Enrollment.{canonical_sha256_digest}
use openbao_attested_unseal.Nodeevidence.Enrollment.Normal.{IsCanonical, canonical_sha256_digest-eq}
use openbao_attested_unseal.Broker.Subjects.{has_text}
use openbao_attested_unseal.Broker.EnrollmentService.{
  ControlPlaneIdentity, role_node_evidence_admin,
}
use openbao_attested_unseal.Broker.Admin.{AdminService, contains_trimmed, can_publish_provider}
use openbao_attested_unseal.Broker.Config.{Config}
use openbao_attested_unseal.Broker.Config.Identities.{
  validate_identity, validate_identities, validate_control_plane, has_role,
}
use openbao_attested_unseal.Broker.Config.Nodes.{
  normalized_provider_ids, validate_providers, validate_node_evidence_providers,
  validate_tpm_transport, validate_kubernetes_node_evidence, validate_kubernetes,
}
use openbao_attested_unseal.Broker.Config.Listed.{
  has_text-normalized_provider_ids, validate_providers-listed,
}
use openbao_attested_unseal.Broker.Config.Validate.{
  validate_required_paths, validate_tls, validate_identifiers, validate_modes,
  validate_default_policy, validate_development, validate_challenge_ttl, validate_config,
}

-- An identity that may administer node evidence of the cluster of the configuration.
pub record HasAdmin (c : Config) : Type 0 where
  pub hash : Text
  pub identity : ControlPlaneIdentity
  pub configured : Memᴰ (hash, identity) c.identities
  pub role : has_text role_node_evidence_admin identity.roles ≡ true
  pub scope : has_text c.cluster_id identity.cluster_ids ≡ true
  pub canonical : IsCanonical hash

-- What a configuration must have for the publication of TPM quotes.
pub record IsGuarded (c : Config) : Type 0 where
  pub certified : c.require_client_cert ≡ true
  pub encrypted : c.allow_plaintext_for_tests ≡ false
  pub admin : HasAdmin c

has_role-mem :
    (role cluster_id : Text) (identities : List (Text × ControlPlaneIdentity))
    → has_role role cluster_id identities ≡ true
    → (hash : Text) × (identity : ControlPlaneIdentity) × Memᴰ (hash, identity) identities
      × (has_text role identity.roles ≡ true)
      × (has_text cluster_id identity.cluster_ids ≡ true)
unfolding has_role
has_role-mem role cluster_id [] h = cc
has_role-mem role cluster_id ((hash, identity) ∷ identities) h =
    elim (Bool-cases (has_text role identity.roles && has_text cluster_id identity.cluster_ids)) [
      | inl here ↦ (hash, identity, Memᴰ.head refl, ground arith, ground arith)
      | inr later ↦
          let (k, i, m, r, s) = has_role-mem role cluster_id identities (rw later at h) in
          (k, i, Memᴰ.tail m, r, s)
    ]

validate_identities-mem :
    (identities : List (Text × ControlPlaneIdentity)) (hash : Text)
    (identity : ControlPlaneIdentity)
    → validate_identities identities ≡ ok tt
    → Memᴰ (hash, identity) identities
    → validate_identity hash identity ≡ ok tt
unfolding validate_identities
validate_identities-mem [] hash identity h m = elim m [ ]
validate_identities-mem ((k, i) ∷ rest) hash identity h (Memᴰ.head e) =
    let (here, _) = >>-ok (validate_identity k i) _ h in cc
validate_identities-mem ((k, i) ∷ rest) hash identity h (Memᴰ.tail m) =
    let (_, later) = >>-ok (validate_identity k i) _ h in
    validate_identities-mem rest hash identity later m

validate_identity-IsCanonical :
    (hash : Text) (identity : ControlPlaneIdentity)
    → validate_identity hash identity ≡ ok tt
    → IsCanonical hash
unfolding validate_identity
validate_identity-IsCanonical hash identity h =
    let (c, made, _) = >>=-ok (wrap_err (canonical_sha256_digest hash) other) _ h in
    let digest = wrap_err-ok (canonical_sha256_digest hash) other made in
    let same : c ≡ hash = canonical_sha256_digest-eq hash c digest in digest ∙ ap ok same

module _ (c : Config) where
  validate_config-parts :
      validate_config c ≡ ok tt
      → (validate_control_plane c ≡ ok tt) × (validate_kubernetes c ≡ ok tt)
  unfolding validate_config
  validate_config-parts h =
      let (_, h1) = >>-ok (validate_required_paths c) _ h in
      let (_, h2) = >>-ok (validate_tls c) _ h1 in
      let (_, h3) = >>-ok (validate_identifiers c) _ h2 in
      let (_, h4) = >>-ok (validate_modes c) _ h3 in
      let (_, h5) = >>-ok (validate_default_policy c) _ h4 in
      let (_, h6) = >>-ok (validate_development c) _ h5 in
      let (_, h7) = >>-ok (validate_challenge_ttl c) _ h6 in >>-ok (validate_control_plane c) _ h7

  validate_control_plane-mem :
      (hash : Text) (identity : ControlPlaneIdentity)
      → validate_control_plane c ≡ ok tt
      → Memᴰ (hash, identity) c.identities
      → IsCanonical hash
  unfolding validate_control_plane
  validate_control_plane-mem hash identity h m = elim (Bool-cases (is_nil c.identities)) [
    | inl none_given ↦ absurd (mem_nil c.identities none_given m)
    | inr given ↦
        let h0 = rw given at h in
        let (_, h1) = >>-ok (guard (not c.allow_plaintext_for_tests) other) _ h0 in
        let (_, h2) = >>-ok (guard c.require_client_cert other) _ h1 in
        validate_identity-IsCanonical hash identity
          (validate_identities-mem c.identities hash identity h2 m)
  ]
    where
      mem_nil :
          (xs : List (Text × ControlPlaneIdentity)) → is_nil xs ≡ true → ¬ Memᴰ (hash, identity) xs
      mem_nil [] e m = elim m [ ]
      mem_nil (x ∷ xs) e m = cc

  validate_tpm_transport-enabled :
      (certified plaintext admin : Bool)
      → validate_tpm_transport true certified plaintext admin ≡ ok tt
      → (plaintext ≡ false) × (certified ≡ true) × (admin ≡ true)
  unfolding validate_tpm_transport
  validate_tpm_transport-enabled certified plaintext admin h =
      (ground arith, ground arith, ground arith)

  validate_kubernetes-listed :
      (t : Text)
      → validate_kubernetes c ≡ ok tt
      → contains_trimmed t c.kubernetes.node_evidence_publish_providers ≡ true
      → (t ≡ provider_tpm2_quote)
        × (c.allow_plaintext_for_tests ≡ false)
        × (c.require_client_cert ≡ true)
        × (has_role role_node_evidence_admin c.cluster_id c.identities ≡ true)
  unfolding validate_kubernetes validate_kubernetes_node_evidence validate_node_evidence_providers
  validate_kubernetes-listed t h listed =
      let providers = c.kubernetes.node_evidence_publish_providers in
      let admin = has_role role_node_evidence_admin c.cluster_id c.identities in
      let (checked, _) =
        >>-ok
          (validate_kubernetes_node_evidence c.kubernetes c.require_client_cert
            c.allow_plaintext_for_tests admin)
          _ h in
      let (enabled, known, transport) =
        >>=-ok (validate_node_evidence_providers providers) _ checked in
      let (valid, found) = >>-ok (validate_providers providers) _ known in
      let tpm : t ≡ provider_tpm2_quote = validate_providers-listed t providers valid listed in
      let named : has_text provider_tpm2_quote (normalized_provider_ids providers) ≡ true =
        has_text-normalized_provider_ids provider_tpm2_quote providers ∙ rw tpm at listed in
      let on : enabled ≡ true = cc in
      let (plaintext, certified, may) =
        validate_tpm_transport-enabled c.require_client_cert c.allow_plaintext_for_tests admin
          (rw on at transport) in
      (tpm, plaintext, certified, may)

  listed-IsGuarded :
      (t : Text)
      → validate_config c ≡ ok tt
      → contains_trimmed t c.kubernetes.node_evidence_publish_providers ≡ true
      → (t ≡ provider_tpm2_quote) × IsGuarded c
  listed-IsGuarded t h listed =
      let (control, kubernetes) = validate_config-parts h in
      let (tpm, plaintext, certified, may) = validate_kubernetes-listed t kubernetes listed in
      let (hash, identity, m, r, s) =
        has_role-mem role_node_evidence_admin c.cluster_id c.identities may in
      (
        tpm,
        record {
          certified = certified;
          encrypted = plaintext;
          admin = record {
            hash = hash;
            identity = identity;
            configured = m;
            role = r;
            scope = s;
            canonical = validate_control_plane-mem hash identity control m;
          };
        },
      )

  -- Where a configuration is accepted, an administrative service with its list of providers publishes
  -- no provider but the local fake, where that is allowed, and the TPM quote; and it publishes the TPM
  -- quote only where the configuration asks for client certificates, allows no plaintext, and has an
  -- identity, under a canonical certificate hash, that may administer node evidence of its cluster.
  pub can_publish_provider-IsGuarded :
      (a : AdminService) (provider : Text)
      → validate_config c ≡ ok tt
      → a.publish_providers ≡ c.kubernetes.node_evidence_publish_providers
      → can_publish_provider a provider ≡ true
      → ((trim_space provider ≡ provider_fake_local) × (a.allow_fake_publish ≡ true))
        ⊎ ((trim_space provider ≡ provider_tpm2_quote) × IsGuarded c)
  unfolding can_publish_provider
  can_publish_provider-IsGuarded a provider h same may =
      let id = trim_space provider in
      elim (Bool-cases (text_eq id provider_fake_local && a.allow_fake_publish)) [
        | inl fake ↦ inl ((text_eq_iff id provider_fake_local).0 (ground arith), ground arith)
        | inr other_provider ↦
            let listed : contains_trimmed id a.publish_providers ≡ true = ground arith in
            inr (listed-IsGuarded id h (rw same at listed))
      ]
