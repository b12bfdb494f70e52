-- ===== src/Broker/Handlers.antt =====
-- The theorems of the handlers over a run that wraps, rotates and unwraps.
use mathlib.Core.List.{Memᴰ}
use openbao_attested_unseal.Prelude.{◌≡◌, refl, true, false, Option, some, [], ◌∷◌, arith}
use openbao_attested_unseal.Prelude.Result.{ok, err, other}
use openbao_attested_unseal.Prelude.Text.{codes, text_eq}
use openbao_attested_unseal.Prelude.Space.{is_blank}
use openbao_attested_unseal.Keyring.Key.{
  format_ref, parse_key_ref, active, decrypt_only, validate_ref, valid_identifier, validate_version,
}
use openbao_attested_unseal.Keyring.Ring.{
  same_ref, contains_ref, new_ring, active_version, key_for_decrypt,
}
use openbao_attested_unseal.Keyring.Samples.{
  sample_primitives, sample_laws, sample_ref, sample_key, first_keys, rotated_keys, bytes_of,
  first_keys-IsRing, rotated_keys-IsRing, rotated-SameKey,
}
use openbao_attested_unseal.Keyring.Metadata.{new_metadata, validate_metadata}
use openbao_attested_unseal.Keyring.Wrap.{decrypt, validate_blob, canonical_aad, new_aead}
use openbao_attested_unseal.Prelude.Split.{split}
use openbao_attested_unseal.Prelude.Decimal.{format_uint, parse_uint}
use openbao_attested_unseal.Keyprotection.{
  validate_protected_key, unprotect, open_keys, load_keyring as load_protected,
}
use openbao_attested_unseal.Broker.Challenge.{
  lookup, put, check_stored, valid_challenge, consume_challenge,
}
use openbao_attested_unseal.Broker.Keys.{
  find_key, protected_key, protected_keys, select_cluster, insert_ordered, check_rows,
}
use openbao_attested_unseal.Broker.Subjects.{find_subject, load_subject}
use openbao_attested_unseal.Broker.Policy.{
  allow, deny, allowed, evaluate, evaluate_subject, evaluate_key, evaluate_node_evidence,
  check_status, key_ref_from_proto,
}
use openbao_attested_unseal.Broker.Tables.{consume_in, table_store}
use openbao_attested_unseal.Broker.Message.{UnwrapRequest, WrappedBlob, proto_to_blob_info}
use openbao_attested_unseal.Broker.Audit.{complete, record_event}
use openbao_attested_unseal.Broker.Service.{Service, wrap_key_ref, load_keyring as service_load}
use openbao_attested_unseal.Broker.Service.Wrap.{wrap}
use openbao_attested_unseal.Broker.Service.Unwrap.{unwrap_with_keyring, unwrap}
use openbao_attested_unseal.Broker.Service.Release.{IsReleased, unwrap-IsReleased, unwrap-refused}
use openbao_attested_unseal.Broker.Service.RoundTrip.{Wraps, Unwraps, unwrap-wrap}
use openbao_attested_unseal.Broker.Samples.{
  first_tables, rotated_tables, sample_service, state_of, sample_evidence, sample_wrap_request,
  no_workload,
}

abbrev wrapped_blob : Option WrappedBlob
wrapped_blob =
    (wrap sample_primitives table_store sample_service (some sample_wrap_request)
      (state_of first_tables)).0.blob

abbrev back : UnwrapRequest
back = record { evidence = sample_evidence; blob = wrapped_blob; aad = codes "aad" }

abbrev direct : UnwrapRequest
direct = record {
  evidence = sample_evidence;
  blob = some (record {
    ciphertext = 7 ∷ codes "secret";
    iv = bytes_of 12;
    key = some (sample_ref 1);
    mechanism = 1;
  });
  aad = codes "aad";
}

wraps :
    Wraps sample_primitives sample_laws table_store sample_service sample_wrap_request
      (state_of first_tables)
      (sample_key 1 active)
unfolding wrap_key_ref active_version evaluate evaluate_subject evaluate_key evaluate_node_evidence
    check_status allow deny load_subject find_subject consume_in consume_challenge valid_challenge
    check_stored lookup put text_eq protected_key find_key validate_protected_key validate_ref
    valid_identifier is_blank same_ref service_load load_protected protected_keys select_cluster
    insert_ordered check_rows open_keys unprotect validate_version new_ring contains_ref
wraps = record {
  verified = record { subject = codes "node"; workload = no_workload };
  attested = refl;
  ref = sample_ref 1;
  found = allow (codes "default");
  chosen = refl;
  usable = refl;
  granted = refl;
  ring = first_keys;
  loaded = refl;
  sound = first_keys-IsRing;
  current = refl;
  small = omega arith;
  live = refl;
  nonce = bytes_of 12;
  drawn = refl;
  size = refl;
}

unwraps :
    Unwraps sample_primitives sample_laws table_store sample_service back
      (state_of rotated_tables)
      (sample_key 1 active)
unfolding evaluate evaluate_subject evaluate_key evaluate_node_evidence check_status allow deny
    load_subject find_subject consume_in consume_challenge valid_challenge check_stored lookup put
    text_eq protected_key find_key validate_protected_key validate_ref valid_identifier is_blank
    same_ref service_load load_protected protected_keys select_cluster insert_ordered check_rows
    open_keys unprotect validate_version new_ring contains_ref
unwraps = record {
  verified = record { subject = codes "node"; workload = no_workload };
  attested = refl;
  granted = refl;
  ring = rotated_keys;
  loaded = refl;
  sound = rotated_keys-IsRing;
  held = sample_key 1 decrypt_only;
  holds = Memᴰ.head refl;
  same = rotated-SameKey;
  decrypts = refl;
  live = refl;
}

unwrap-wrap_example :
    (unwrap sample_primitives table_store sample_service
      (some back)
      (state_of rotated_tables)).0.plaintext
    ≡ codes "secret"
unwrap-wrap_example =
    unwrap-wrap sample_primitives sample_laws table_store sample_service sample_service
      sample_wrap_request back (state_of first_tables) (state_of rotated_tables)
      (sample_key 1 active) wraps unwraps refl refl

released :
    allowed
      (unwrap sample_primitives table_store sample_service
        (some direct)
        (state_of rotated_tables)).0.decision
    ≡ true
unfolding unwrap unwrap_with_keyring key_ref_from_proto proto_to_blob_info decrypt validate_blob
    parse_key_ref split parse_uint format_ref format_uint key_for_decrypt canonical_aad new_metadata
    validate_metadata new_aead evaluate evaluate_subject evaluate_key evaluate_node_evidence
    check_status allow deny load_subject find_subject consume_in consume_challenge valid_challenge
    check_stored lookup put text_eq protected_key find_key validate_protected_key validate_ref
    valid_identifier is_blank same_ref service_load load_protected protected_keys select_cluster
    insert_ordered check_rows open_keys unprotect validate_version new_ring contains_ref
released = refl

-- A broker that can draw no identifier for an audit event.
abbrev silent_service : Service table_store
silent_service = record sample_service {
  attempt = record { audit_id = err other; time = 30; insert = ok tt; write = complete };
}

-- It releases the plaintext, and both logs stay empty.
released_unaudited :
    let (response, s') =
      unwrap sample_primitives table_store silent_service (some direct) (state_of rotated_tables) in
    (allowed response.decision ≡ true) × (s'.audit ≡ record { stored = []; written = [] })
unfolding record_event unwrap unwrap_with_keyring key_ref_from_proto proto_to_blob_info decrypt
    validate_blob parse_key_ref split parse_uint format_ref format_uint key_for_decrypt
    canonical_aad new_metadata validate_metadata new_aead evaluate evaluate_subject evaluate_key
    evaluate_node_evidence check_status allow deny load_subject find_subject consume_in
    consume_challenge valid_challenge check_stored lookup put text_eq protected_key find_key
    validate_protected_key validate_ref valid_identifier is_blank same_ref service_load
    load_protected protected_keys select_cluster insert_ordered check_rows open_keys unprotect
    validate_version new_ring contains_ref
released_unaudited = (refl, refl)

unwrap-IsReleased_example :
    IsReleased sample_primitives table_store sample_service direct
      (state_of rotated_tables)
      (unwrap sample_primitives table_store sample_service
        (some direct)
        (state_of rotated_tables)).0
      (unwrap sample_primitives table_store sample_service
        (some direct)
        (state_of rotated_tables)).1
unwrap-IsReleased_example =
    unwrap-IsReleased sample_primitives table_store sample_service direct (state_of rotated_tables)
      released

-- The challenge of the first tables is for a wrap request.
refused :
    allowed
      (unwrap sample_primitives table_store sample_service
        (some direct)
        (state_of first_tables)).0.decision
    ≡ false
unfolding unwrap key_ref_from_proto evaluate evaluate_subject evaluate_key evaluate_node_evidence
    check_status allow deny load_subject find_subject consume_in consume_challenge valid_challenge
    check_stored lookup put text_eq protected_key find_key validate_protected_key validate_ref
    valid_identifier is_blank same_ref service_load load_protected protected_keys select_cluster
    insert_ordered check_rows open_keys unprotect validate_version new_ring contains_ref
refused = refl

unwrap-refused_example :
    (unwrap sample_primitives table_store sample_service
      (some direct)
      (state_of first_tables)).0.plaintext
    ≡ []
unwrap-refused_example =
    unwrap-refused sample_primitives table_store sample_service (some direct)
      (state_of first_tables) refused
