-- ===== src/Nodeevidence/Examples.antt =====
-- The theorem of the process-local repository of enrollments at a concrete node.
use openbao_attested_unseal.Prelude.{◌≡◌, refl, none, some, [], ◌∷◌}
use openbao_attested_unseal.Prelude.Result.{ok, err, enrollment_revoked, enrollment_changed}
use openbao_attested_unseal.Prelude.Text.{codes, text_eq}
use openbao_attested_unseal.Prelude.Trim.{trim_space}
use openbao_attested_unseal.Tpm.Samples.{sample_library, sample_policy}
use openbao_attested_unseal.Broker.Policy.{NodeEvidence}
use openbao_attested_unseal.Nodeevidence.Table.{NodeKey, same_key, store, find, remove}
use openbao_attested_unseal.Nodeevidence.Evidence.{provider_tpm2_quote}
use openbao_attested_unseal.Nodeevidence.Enrollment.{Enrollment}
use openbao_attested_unseal.Nodeevidence.Memory.{
  MemoryEnrollments, revoke_memory, put_enrolled_memory, active_memory,
}
use openbao_attested_unseal.Nodeevidence.Memory.Revoked.{evidence_of, revoke_memory-refused}

abbrev sample_node : NodeKey
sample_node = record { cluster_id = codes "c"; node_name = codes "n" }

abbrev sample_enrollment : Enrollment
sample_enrollment = record {
  cluster_id = codes "c";
  node_name = codes "n";
  node_uid = codes "u";
  provider = provider_tpm2_quote;
  tpm_policy = sample_policy;
  publisher_certificate_hashes = [];
  revision = 1;
  enrolled_at = 100;
  updated_at = 100;
  revoked_at = 0;
}

abbrev sample_evidence : NodeEvidence
sample_evidence = record {
  cluster_id = codes "c";
  node_name = codes "n";
  node_uid = codes "u";
  provider = provider_tpm2_quote;
  evidence_hash = codes "h";
  collected_at = 150;
  expires_at = 400;
}

abbrev enrolled_repository : MemoryEnrollments
enrolled_repository = record {
  enrollments = (sample_node, sample_enrollment) ∷ [];
  evidence = some ((sample_node, sample_evidence) ∷ []);
}

abbrev revoked_enrollment : Enrollment
revoked_enrollment = record sample_enrollment { revision = 2; updated_at = 200; revoked_at = 200 }

abbrev revoked_repository : MemoryEnrollments
revoked_repository = record {
  enrollments = (sample_node, revoked_enrollment) ∷ [];
  evidence = some [];
}

revoked_sample :
    revoke_memory (codes " c") (codes "n") 200 enrolled_repository
    ≡ (revoked_repository, ok revoked_enrollment)
unfolding revoke_memory text_eq trim_space same_key store find remove
revoked_sample = refl

same_sample :
    sample_node
    ≡ record { cluster_id = trim_space (codes " c"); node_name = trim_space (codes "n") }
unfolding trim_space
same_sample = refl

revoke_memory-refused_example :
    (evidence_of sample_node revoked_repository.evidence ≡ none)
    × (active_memory sample_library (codes " c") (codes "n") revoked_repository
        ≡ err enrollment_revoked)
    × (put_enrolled_memory sample_evidence 1 revoked_repository ≡ err enrollment_changed)
    × (revoke_memory (codes " c") (codes "n") 300 revoked_repository
        ≡ (revoked_repository, err enrollment_revoked))
unfolding trim_space
revoke_memory-refused_example =
    revoke_memory-refused sample_library (codes " c") (codes "n") 200 300 enrolled_repository
      revoked_repository revoked_enrollment sample_evidence 1 revoked_sample same_sample refl
