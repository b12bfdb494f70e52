-- ===== src/Broker/Service/Status.antt =====
-- internal/broker/service.go: the handler Status.
use openbao_attested_unseal.Prelude.{
  ◌≡◌, refl, Bool, true, false, Option, none, some, List, [], ◌∷◌, ◌⊎◌, inl, inr, ap, ◌∙◌,
  if◌then◌else◌,
}
use openbao_attested_unseal.Prelude.Result.{ok, err, Result-cases}
use openbao_attested_unseal.Prelude.Text.{Text, codes, is_empty}
use openbao_attested_unseal.Keyring.Key.{KeyRef, KeyVersion, Status, active, format_ref}
use openbao_attested_unseal.Keyring.Ring.{active_version}
use openbao_attested_unseal.Broker.Policy.{
  ErrorCode, Store, allow, deny, allowed, code_key_not_usable,
}
use openbao_attested_unseal.Broker.Message.{names_version}
use openbao_attested_unseal.Broker.Service.{Service, load_keyring, wrap_key_ref}

-- BrokerError, KeyVersion and StatusResponse; an answer without keys has ErrorCode and message.
pub record BrokerError : Type 0 where
  pub code : ErrorCode
  pub message : Text

pub record KeyStatusMessage : Type 0 where
  pub ref : KeyRef
  pub status : Status
  pub algorithm : Text
  pub policy_id : Text

pub record StatusResponse : Type 0 where
  pub ready : Bool
  pub active_key_id : Text
  pub keys : List KeyStatusMessage
  pub errors : List BrokerError

-- The answer where the keyring cannot be used.
abbrev not_ready : Text → StatusResponse
not_ready message = record {
  ready = false;
  active_key_id = [];
  keys = [];
  errors = record { code = code_key_not_usable; message = message } ∷ [];
}

-- The answer for the active key version.
unfoldable pub ready_with : KeyVersion → StatusResponse
ready_with v = record {
  ready = true;
  active_key_id = format_ref v.ref;
  keys =
      record { ref = v.ref; status = active; algorithm = v.algorithm; policy_id = v.policy_id }
      ∷ [];
  errors = [];
}

module _ (st : Store) where
  -- The cluster of a request, or the one of the configuration.
  abbrev pub status_cluster : Service st → Option Text → Text
  status_cluster sv none = sv.cluster_id
  status_cluster sv (some cluster_id) = if is_empty cluster_id then sv.cluster_id else cluster_id

  -- Status; a request is the cluster that it names
  unfoldable pub broker_status : Service st → Option Text → st.State → StatusResponse
  broker_status sv requested s = elim (load_keyring st sv s (status_cluster sv requested)) [
    | err _ ↦ not_ready (codes "keyring is not ready")
    | ok ring ↦ elim (active_version ring) [
      | err _ ↦ not_ready (codes "active key is unavailable")
      | ok v ↦ ready_with v
    ]
  ]

  -- For the configured cluster Status and a Wrap that names no key version agree: either Status is ready
  -- and its active key is the text of the reference that wrapKeyRef picks, or Status is not ready and
  -- wrapKeyRef refuses.
  pub broker_status-wrap_key_ref :
      (sv : Service st) (requested : Option Text) (key : Option KeyRef) (s : st.State)
      → status_cluster sv requested ≡ sv.cluster_id
      → names_version key ≡ false
      → (((broker_status sv requested s).ready ≡ true)
          × ((ref : KeyRef) × (wrap_key_ref st sv s key ≡ (ref, allow sv.engine.policy_id))
              × ((broker_status sv requested s).active_key_id ≡ format_ref ref)))
        ⊎ (((broker_status sv requested s).ready ≡ false)
            × (allowed (wrap_key_ref st sv s key).1 ≡ false))
  unfolding broker_status wrap_key_ref ready_with deny
  broker_status-wrap_key_ref sv requested key s cluster unnamed =
      let load = load_keyring st sv s in
      let same : load (status_cluster sv requested) ≡ load sv.cluster_id = ap load cluster in
      elim (Result-cases (load sv.cluster_id)) [
        | inr (x, f) ↦ inr (rw (same ∙ f, broker_status) refl, rw (unnamed, f) refl)
        | inl (ring, f) ↦ elim (Result-cases (active_version ring)) [
          | inr (x, g) ↦ inr (rw (same ∙ f, broker_status, g) refl, rw (unnamed, f, g) refl)
          | inl (v, g) ↦ inl (
            rw (same ∙ f, broker_status, g) refl,
            (v.ref, rw (unnamed, f, g) refl, rw (same ∙ f, broker_status, g) refl),
          )
        ]
      ]
