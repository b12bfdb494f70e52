-- ===== src/Broker/Tables.antt =====
-- The store of the broker as the tables that internal/broker/sqlite.go keeps, with the single-use
-- challenges of memory_challenge.go: an implementation of the interface that the policy takes.
pub mod Once
use openbao_attested_unseal.Prelude.{List}
use openbao_attested_unseal.Prelude.Result.{Result, ok, ◌>>=◌}
use openbao_attested_unseal.Keyprotection.{ProtectedKey}
use openbao_attested_unseal.Broker.Challenge.{
  Challenge, StoredChallenge, Presented, create_challenge, consume_challenge,
}
use openbao_attested_unseal.Broker.Subjects.{Subject, load_subject}
use openbao_attested_unseal.Broker.Keys.{protected_key}
use openbao_attested_unseal.Broker.Policy.{Store}

pub record Tables : Type 0 where
  pub challenges : List StoredChallenge
  pub subjects : List Subject
  pub keys : List ProtectedKey

abbrev pub with_challenges : Tables → List StoredChallenge → Tables
with_challenges t cs = record { challenges = cs; subjects = t.subjects; keys = t.keys }

-- CreateChallenge
unfoldable pub create_in : Tables → Challenge → Result Tables
create_in t c = do cs ← create_challenge c t.challenges; ok (with_challenges t cs)

-- ConsumeChallenge
unfoldable pub consume_in : Tables → Presented → Result Tables
consume_in t p = do cs ← consume_challenge p t.challenges; ok (with_challenges t cs)

abbrev pub table_store : Store
table_store = record {
  State = Tables;
  subject = λ t cluster_id subject. load_subject cluster_id subject t.subjects;
  create = create_in;
  consume = consume_in;
  protected_key = λ t r. protected_key r t.keys;
}
