-- ===== src/Broker/Service/RoundTrip.antt =====
-- service.go: what Wrap makes, Unwrap releases.
use mathlib.Core.List.{Memᴰ}
use openbao_attested_unseal.Prelude.{◌≡◌, ◌≤◌, refl, sym, ap, ◌∙◌, true, none, some, arith, length}
use openbao_attested_unseal.Prelude.Result.{ok}
use openbao_attested_unseal.Prelude.Text.{Text}
use openbao_attested_unseal.Keyring.Key.{
  KeyRef, KeyVersion, nonce_size, version_limit, validate_ref, can_decrypt, format_ref,
  blob_mechanism_aes256gcm,
}
use openbao_attested_unseal.Keyring.Key.RoundTrip.{parse_key_ref-format_ref}
use openbao_attested_unseal.Keyring.Ring.{Ring, active_version}
use openbao_attested_unseal.Keyring.Ring.Build.{IsRing}
use openbao_attested_unseal.Keyring.Primitives.{Primitives, PrimitiveLaws}
use openbao_attested_unseal.Keyring.Wrap.{BlobInfo, encrypt, decrypt}
use openbao_attested_unseal.Keyring.Wrap.RoundTrip.{
  SameKey, decrypt-encrypt, active-valid, validate_version-parts,
}
use openbao_attested_unseal.Broker.Policy.{
  PolicyDecision, Store, allowed, evaluate, operation_wrap, operation_unwrap, key_ref_from_proto,
}
use openbao_attested_unseal.Broker.Message.{
  VerifiedEvidence, WrapRequest, UnwrapRequest, wrapped_blob_to_proto, proto_to_blob_info, key_of,
}
use openbao_attested_unseal.Broker.Service.{
  Service, ServiceState, load_keyring, wrap_key_ref, policy_request,
}
use openbao_attested_unseal.Broker.Service.Wrap.{wrap_with_keyring, wrap_verified, wrap}
use openbao_attested_unseal.Broker.Service.Unwrap.{unwrap_with_keyring, unwrap}
use openbao_attested_unseal.Broker.Service.Release.{unwrap-granted}

wrapped_blob_to_proto-format_ref :
    (ct nonce : Text) (ref : KeyRef)
    → validate_ref ref ≡ ok tt
    → ref.version ≤ version_limit
    → wrapped_blob_to_proto (record {
      ciphertext = ct;
      iv = nonce;
      key_info = some (record { mechanism = blob_mechanism_aes256gcm; key_id = format_ref ref });
    })
      ≡ some (record {
        ciphertext = ct;
        iv = nonce;
        key = some ref;
        mechanism = blob_mechanism_aes256gcm;
      })
unfolding wrapped_blob_to_proto
wrapped_blob_to_proto-format_ref ct nonce ref h b =
    rw (parse_key_ref-format_ref ref h b, wrapped_blob_to_proto) refl

-- The conversion to the message and back gives the blob that Encrypt makes.
proto_to_blob_info-wrapped_blob_to_proto :
    (ct nonce : Text) (ref : KeyRef)
    → validate_ref ref ≡ ok tt
    → ref.version ≤ version_limit
    → proto_to_blob_info (
        wrapped_blob_to_proto (record {
          ciphertext = ct;
          iv = nonce;
          key_info =
              some (record { mechanism = blob_mechanism_aes256gcm; key_id = format_ref ref });
        }))
      ≡ record {
        ciphertext = ct;
        iv = nonce;
        key_info = some (record { mechanism = blob_mechanism_aes256gcm; key_id = format_ref ref });
      }
unfolding proto_to_blob_info
proto_to_blob_info-wrapped_blob_to_proto ct nonce ref h b =
    rw (wrapped_blob_to_proto-format_ref ct nonce ref h b) refl

module _ (p : Primitives) (laws : PrimitiveLaws p) (st : Store) where
  encrypt-key_info :
      (nonce : Text) (r : Ring) (v : KeyVersion) (plaintext caller : Text) (blob : BlobInfo)
      → active_version r ≡ ok v
      → encrypt p none (ok nonce) r plaintext caller ≡ ok blob
      → blob.key_info
        ≡ some (record { mechanism = blob_mechanism_aes256gcm; key_id = format_ref v.ref })
  unfolding encrypt
  encrypt-key_info nonce r v plaintext caller blob e h = ground arith

  -- A call of Wrap that gets to the end: the evidence is verified, a key reference is found, the policy
  -- allows it, and the context is live. The keyring that is then loaded has `v` as its active version.
  pub record Wraps (sv : Service st) (req : WrapRequest) (s : ServiceState st) (v : KeyVersion)
      : Type 0 where
    pub verified : VerifiedEvidence
    pub attested : sv.verify req.evidence ≡ ok verified
    pub ref : KeyRef
    pub found : PolicyDecision
    pub chosen : wrap_key_ref st sv s.store req.requested_key ≡ (ref, found)
    pub usable : allowed found ≡ true
    pub granted :
        allowed
          (evaluate st sv.engine
            (policy_request st verified operation_wrap req.evidence ref)
            s.store).0
        ≡ true
    pub ring : Ring
    pub loaded :
        load_keyring st sv
          (evaluate st sv.engine
            (policy_request st verified operation_wrap req.evidence ref)
            s.store).1
          ref.cluster_id
        ≡ ok ring
    pub sound : IsRing ring.versions
    pub current : active_version ring ≡ ok v
    pub small : v.ref.version ≤ version_limit
    pub live : sv.cancelled ≡ none
    pub nonce : Text
    pub drawn : sv.nonce ≡ ok nonce
    pub size : length nonce ≡ nonce_size

  -- A call of Unwrap that gets to the keyring for the version `v`: the evidence is verified, the policy
  -- allows the reference of `v`, and the context is live. The keyring that is then loaded holds the key
  -- of `v` under a status that may decrypt.
  pub record Unwraps (sv : Service st) (req : UnwrapRequest) (s : ServiceState st) (v : KeyVersion)
      : Type 0 where
    pub verified : VerifiedEvidence
    pub attested : sv.verify req.evidence ≡ ok verified
    pub granted :
        allowed
          (evaluate st sv.engine
            (policy_request st verified operation_unwrap req.evidence v.ref)
            s.store).0
        ≡ true
    pub ring : Ring
    pub loaded :
        load_keyring st sv
          (evaluate st sv.engine
            (policy_request st verified operation_unwrap req.evidence v.ref)
            s.store).1
          v.ref.cluster_id
        ≡ ok ring
    pub sound : IsRing ring.versions
    pub held : KeyVersion
    pub holds : Memᴰ held ring.versions
    pub same : SameKey v held
    pub decrypts : can_decrypt held ≡ true
    pub live : sv.cancelled ≡ none

  wrap-blob :
      (sv : Service st) (req : WrapRequest) (s : ServiceState st) (v : KeyVersion)
      (w : Wraps sv req s v) (blob : BlobInfo)
      → encrypt p none (ok w.nonce) w.ring req.plaintext req.aad ≡ ok blob
      → (wrap p st sv (some req) s).0.blob ≡ wrapped_blob_to_proto blob
  unfolding wrap wrap_verified wrap_with_keyring
  wrap-blob sv req s v w blob e =
      rw (w.attested, wrap)
        (rw (w.chosen, wrap_verified)
          (rw w.usable
            (rw w.granted (rw (w.loaded, wrap_with_keyring) (rw w.live (rw w.drawn (rw e refl)))))))

  unwrap-plaintext :
      (sv : Service st) (req : UnwrapRequest) (s : ServiceState st) (v : KeyVersion)
      (u : Unwraps sv req s v) (t : Text)
      → key_ref_from_proto (key_of req.blob) ≡ ok v.ref
      → decrypt p none u.ring (some (proto_to_blob_info req.blob)) req.aad ≡ ok t
      → (unwrap p st sv (some req) s).0.plaintext ≡ t
  unfolding unwrap_with_keyring
  unwrap-plaintext sv req s v u t named opened =
      rw (unwrap-granted p st sv req s u.verified v.ref u.attested named u.granted)
        (rw (u.loaded, unwrap_with_keyring) (rw u.live (rw opened refl)))

  -- Where a call of Wrap gets to its end (Wraps) with the active version `v`, and a call of Unwrap gets
  -- to a keyring that holds the key of `v` under a status that may decrypt (Unwraps), the blob of the
  -- first call, presented to the second with the same additional data, gives the plaintext of the
  -- wrap request back.
  pub unwrap-wrap :
      (sv later : Service st) (req : WrapRequest) (back : UnwrapRequest) (s t : ServiceState st)
      (v : KeyVersion)
      → Wraps sv req s v
      → Unwraps later back t v
      → back.blob ≡ (wrap p st sv (some req) s).0.blob
      → back.aad ≡ req.aad
      → (unwrap p st later (some back) t).0.plaintext ≡ req.plaintext
  unfolding key_ref_from_proto
  unwrap-wrap sv later req back s t v w u same_blob same_aad =
      let (blob, sealed, opened) =
        decrypt-encrypt p laws w.ring u.ring v u.held w.nonce req.plaintext req.aad w.sound u.sound
          w.current w.small u.holds u.same u.decrypts w.size in
      let valid = active-valid w.ring v w.sound w.current in
      let (ref_ok, _) = validate_version-parts v valid in
      let info = encrypt-key_info w.nonce w.ring v req.plaintext req.aad blob w.current sealed in
      let sent = same_blob ∙ wrap-blob sv req s v w blob sealed in
      let form : blob ≡ record {
        ciphertext = blob.ciphertext;
        iv = blob.iv;
        key_info =
            some (record { mechanism = blob_mechanism_aes256gcm; key_id = format_ref v.ref });
      } =
        ap (λ i. record { ciphertext = blob.ciphertext; iv = blob.iv; key_info = i }) info in
      let whole : back.blob
          ≡ some (record {
            ciphertext = blob.ciphertext;
            iv = blob.iv;
            key = some v.ref;
            mechanism = blob_mechanism_aes256gcm;
          }) =
        sent
        ∙ ap wrapped_blob_to_proto form
        ∙ wrapped_blob_to_proto-format_ref blob.ciphertext blob.iv v.ref ref_ok w.small in
      let named : key_ref_from_proto (key_of back.blob) ≡ ok v.ref = rw whole (rw ref_ok refl) in
      let again : proto_to_blob_info back.blob ≡ blob =
        ap proto_to_blob_info (sent ∙ ap wrapped_blob_to_proto form)
        ∙ proto_to_blob_info-wrapped_blob_to_proto blob.ciphertext blob.iv v.ref ref_ok w.small
        ∙ sym form in
      unwrap-plaintext later back t v u req.plaintext named (rw again (rw same_aad opened))
