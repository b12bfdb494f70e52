-- ===== src/Broker/Message.antt =====
-- proto/openbao/attestedunseal/v1: the messages of the broker as internal/broker/service.go reads and
-- writes them, and its conversions of blobs. A nil message is `none`.
use openbao_attested_unseal.Prelude.{ℕ, Bool, not, false, Option, none, some, [], ◌==◌}
use openbao_attested_unseal.Prelude.Result.{ok, err}
use openbao_attested_unseal.Prelude.Text.{Text}
use openbao_attested_unseal.Keyring.Key.{KeyRef, format_ref, parse_key_ref}
use openbao_attested_unseal.Keyring.Wrap.{BlobInfo}
use openbao_attested_unseal.Broker.Policy.{PolicyDecision, WorkloadIdentity}

pub record EvidenceEnvelope : Type 0 where
  pub challenge_id : Text
  pub payload : Text

pub record VerifiedEvidence : Type 0 where
  pub subject : Text
  pub workload : WorkloadIdentity

pub record WrappedBlob : Type 0 where
  pub ciphertext : Text
  pub iv : Text
  pub key : Option KeyRef
  pub mechanism : ℕ

pub record WrapRequest : Type 0 where
  pub evidence : Option EvidenceEnvelope
  pub requested_key : Option KeyRef
  pub plaintext : Text
  pub aad : Text

pub record WrapResponse : Type 0 where
  pub blob : Option WrappedBlob
  pub decision : PolicyDecision

pub record UnwrapRequest : Type 0 where
  pub evidence : Option EvidenceEnvelope
  pub blob : Option WrappedBlob
  pub aad : Text

pub record UnwrapResponse : Type 0 where
  pub plaintext : Text
  pub decision : PolicyDecision

pub record ChallengeRequest : Type 0 where
  pub cluster_id : Text
  pub node_id : Text
  pub operation : ℕ

pub record ChallengeResponse : Type 0 where
  pub challenge_id : Text
  pub nonce : Text
  pub expires_unix_seconds : ℕ

-- AuditEvent, with the identifier and the time that newAuditEvent gives it and the arguments of
-- auditDecision; the hash of the evidence and the address of the peer are left out.
pub record AuditEntry : Type 0 where
  pub audit_id : Text
  pub time : ℕ
  pub subject : Text
  pub operation : ℕ
  pub cluster_id : Text
  pub key_id : Text
  pub version : ℕ
  pub decision : PolicyDecision

-- evidence.GetChallengeId()
abbrev pub challenge_id_of : Option EvidenceEnvelope → Text
challenge_id_of none = []
challenge_id_of (some e) = e.challenge_id

-- wrappedBlobToProto
unfoldable pub wrapped_blob_to_proto : BlobInfo → Option WrappedBlob
wrapped_blob_to_proto blob = elim (blob.key_info) [
  | none ↦ none
  | some info ↦ elim (parse_key_ref info.key_id) [
    | err _ ↦ none
    | ok ref ↦ some (record {
      ciphertext = blob.ciphertext;
      iv = blob.iv;
      key = some ref;
      mechanism = info.mechanism;
    })
  ]
]

-- protoToBlobInfo
unfoldable pub proto_to_blob_info : Option WrappedBlob → BlobInfo
proto_to_blob_info none = record { ciphertext = []; iv = []; key_info = none }
proto_to_blob_info (some blob) = elim (blob.key) [
  | none ↦ record { ciphertext = []; iv = []; key_info = none }
  | some ref ↦ record {
    ciphertext = blob.ciphertext;
    iv = blob.iv;
    key_info = some (record { mechanism = blob.mechanism; key_id = format_ref ref });
  }
]

-- keyring.KeyRef{}
abbrev pub no_key_ref : KeyRef
no_key_ref = record { cluster_id = []; key_id = []; version = 0 }

-- requested != nil && requested.GetVersion() != 0
abbrev pub names_version : Option KeyRef → Bool
names_version none = false
names_version (some ref) = not (ref.version == 0)

-- req.GetBlob().GetKey()
abbrev pub key_of : Option WrappedBlob → Option KeyRef
key_of none = none
key_of (some blob) = blob.key
