-- ===== src/Nodeevidence/Evidence.antt =====
-- internal/nodeevidence/evidence.go: the records, what Normalize… ask of them, and the process-local
-- repository. A time is the number of its nanoseconds since 1970, and 0 stands for the zero time;
-- `clock` is the reading of time.Now, which stands in for a time that is zero. The receivers are not
-- nil.
use openbao_attested_unseal.Prelude.{
  ℕ, ◌+◌, Bool, not, is_nil, ltb, ◌==◌, ◌&&◌, ◌||◌, List, [], ◌∷◌, ◌++◌, if◌then◌else◌,
}
use openbao_attested_unseal.Prelude.Result.{
  Result, ok, err, node_evidence_not_found, node_evidence_stale, node_evidence_invalid, ◌>>=◌, ◌>>◌,
  guard, or_err,
}
use openbao_attested_unseal.Prelude.Int.{ℤ, pos, ltb_ℤ}
use openbao_attested_unseal.Prelude.Text.{Text, codes, text_eq, is_empty}
use openbao_attested_unseal.Prelude.Trim.{trim_space}
use openbao_attested_unseal.Broker.Policy.{NodeEvidence}
use openbao_attested_unseal.Nodeevidence.Table.{NodeKey, find, store}

abbrev pub provider_fake_local : Text
provider_fake_local = codes "fake-local"

abbrev pub provider_tpm2_quote : Text
provider_tpm2_quote = codes "generic-tpm2-quote"

abbrev pub format_fake_local : Text
format_fake_local = codes "openbao-attested-unseal.fake-local.v1"

pub record NodeChallengeRequest : Type 0 where
  pub cluster_id : Text
  pub node_name : Text
  pub node_uid : Text
  pub provider : Text

pub record NodeChallenge : Type 0 where
  pub id : Text
  pub nonce : Text
  pub expires_at : ℕ

pub record Submission : Type 0 where
  pub cluster_id : Text
  pub node_name : Text
  pub node_uid : Text
  pub provider : Text
  pub format : Text
  pub payload : Text
  pub challenge_id : Text
  pub requested_ttl : ℤ

-- t.IsZero()
abbrev pub is_zero_time : ℕ → Bool
is_zero_time t = t == 0

-- if now.IsZero() { now = time.Now() }
abbrev pub or_now : ℕ → ℕ → ℕ
or_now clock now = if is_zero_time now then clock else now

abbrev pub trimmed : NodeEvidence → NodeEvidence
trimmed e = record {
  cluster_id = trim_space e.cluster_id;
  node_name = trim_space e.node_name;
  node_uid = trim_space e.node_uid;
  provider = trim_space e.provider;
  evidence_hash = trim_space e.evidence_hash;
  collected_at = e.collected_at;
  expires_at = e.expires_at;
}

-- Normalize, on the trimmed record
unfoldable pub check_evidence : NodeEvidence → Result NodeEvidence
check_evidence e = do
  guard
      (not (
        is_empty e.cluster_id
        || (is_empty e.node_name || (is_empty e.provider || is_empty e.evidence_hash))))
      node_evidence_invalid
  guard (not (is_zero_time e.collected_at || is_zero_time e.expires_at)) node_evidence_invalid
  guard (ltb e.collected_at e.expires_at) node_evidence_invalid
  ok e

-- Normalize
unfoldable pub normalize_evidence : NodeEvidence → Result NodeEvidence
normalize_evidence e = check_evidence (trimmed e)

-- NormalizeChallengeRequest
unfoldable pub normalize_challenge_request : NodeChallengeRequest → Result NodeChallengeRequest
normalize_challenge_request r = do
  let cluster_id = trim_space r.cluster_id
  let node_name = trim_space r.node_name
  let provider = trim_space r.provider
  guard (not (is_empty cluster_id || (is_empty node_name || is_empty provider)))
      node_evidence_invalid
  ok (record {
    cluster_id = cluster_id;
    node_name = node_name;
    node_uid = trim_space r.node_uid;
    provider = provider;
  })

-- NormalizeChallenge
unfoldable pub normalize_challenge : NodeChallenge → Result NodeChallenge
normalize_challenge c = do
  let id = trim_space c.id
  guard (not (is_empty id || (is_empty c.nonce || is_zero_time c.expires_at))) node_evidence_invalid
  ok (record { id = id; nonce = c.nonce; expires_at = c.expires_at })

-- NormalizeSubmission
unfoldable pub normalize_submission : Submission → Result Submission
normalize_submission s = do
  let cluster_id = trim_space s.cluster_id
  let node_name = trim_space s.node_name
  let provider = trim_space s.provider
  let format = trim_space s.format
  let challenge_id = trim_space s.challenge_id
  guard (not (is_empty cluster_id || (is_empty node_name || is_empty provider)))
      node_evidence_invalid
  guard (not (is_empty format || (is_empty s.payload || is_empty challenge_id)))
      node_evidence_invalid
  guard (ltb_ℤ (pos 0) s.requested_ttl) node_evidence_invalid
  ok (record {
    cluster_id = cluster_id;
    node_name = node_name;
    node_uid = trim_space s.node_uid;
    provider = provider;
    format = format;
    payload = s.payload;
    challenge_id = challenge_id;
    requested_ttl = s.requested_ttl;
  })

-- strings.Join(parts, "\x00")
unfoldable pub join_nul : List Text → Text
join_nul [] = []
join_nul (t ∷ []) = t
join_nul (t ∷ u ∷ ts) = t ++ 0 ∷ join_nul (u ∷ ts)

-- FakeLocalPayload, over crypto/sha256
unfoldable pub fake_local_payload :
    (Text → Text) → NodeChallengeRequest → NodeChallenge → Result Text
fake_local_payload sum r c = do
  request ← normalize_challenge_request r
  let id = trim_space c.id
  guard (not (is_empty id || is_empty c.nonce)) node_evidence_invalid
  ok (
      sum (
        join_nul (
          request.cluster_id ∷ request.node_name ∷ request.node_uid ∷ request.provider ∷ id
          ∷ c.nonce ∷ [])))

-- MemoryRepository
abbrev pub EvidenceTable : Type 0
EvidenceTable = List (NodeKey × NodeEvidence)

abbrev pub evidence_key : NodeEvidence → NodeKey
evidence_key e = record { cluster_id = e.cluster_id; node_name = e.node_name }

abbrev pub trimmed_key : Text → Text → NodeKey
trimmed_key cluster_id node_name = record {
  cluster_id = trim_space cluster_id;
  node_name = trim_space node_name;
}

-- PutNodeEvidence
unfoldable pub put_node_evidence : NodeEvidence → EvidenceTable → Result EvidenceTable
put_node_evidence e records = do n ← normalize_evidence e; ok (store (evidence_key n) n records)

-- NodeEvidence
unfoldable pub node_evidence : Text → Text → EvidenceTable → Result NodeEvidence
node_evidence cluster_id node_name records =
    or_err (find (trimmed_key cluster_id node_name) records) node_evidence_not_found

-- FreshNodeEvidence
unfoldable pub fresh_node_evidence : ℕ → Text → Text → ℕ → EvidenceTable → Result NodeEvidence
fresh_node_evidence clock cluster_id node_name now records = do
  e ← node_evidence cluster_id node_name records
  guard (ltb (or_now clock now) e.expires_at) node_evidence_stale
  ok e

abbrev pub listed : Text → Text → NodeKey → Bool
listed cluster_id node_name k =
    text_eq k.cluster_id cluster_id && (is_empty node_name || text_eq k.node_name node_name)

unfoldable pub select_evidence : Text → Text → EvidenceTable → List NodeEvidence
select_evidence cluster_id node_name [] = []
select_evidence cluster_id node_name ((k, e) ∷ records) =
    let rest = select_evidence cluster_id node_name records in
    if listed cluster_id node_name k then e ∷ rest else rest

-- ListNodeEvidence
unfoldable pub list_node_evidence : Text → Text → EvidenceTable → Result (List NodeEvidence)
list_node_evidence cluster_id node_name records =
    let found = select_evidence (trim_space cluster_id) (trim_space node_name) records in
    if is_nil found then err node_evidence_not_found else ok found

abbrev pub is_expired : Text → ℕ → NodeKey → NodeEvidence → Bool
is_expired cluster_id cutoff k e = text_eq k.cluster_id cluster_id && ltb e.expires_at cutoff

unfoldable pub keep_unexpired : Text → ℕ → EvidenceTable → EvidenceTable
keep_unexpired cluster_id cutoff [] = []
keep_unexpired cluster_id cutoff ((k, e) ∷ records) =
    let rest = keep_unexpired cluster_id cutoff records in
    if is_expired cluster_id cutoff k e then rest else (k, e) ∷ rest

unfoldable pub count_expired : Text → ℕ → EvidenceTable → ℕ
count_expired cluster_id cutoff [] = 0
count_expired cluster_id cutoff ((k, e) ∷ records) =
    let rest = count_expired cluster_id cutoff records in
    if is_expired cluster_id cutoff k e then rest + 1 else rest

-- PruneNodeEvidence: what is left, and how many were removed
unfoldable pub prune_node_evidence : ℕ → Text → ℕ → EvidenceTable → EvidenceTable × ℕ
prune_node_evidence clock cluster_id expired_before records =
    let id = trim_space cluster_id in
    let cutoff = or_now clock expired_before in
    (keep_unexpired id cutoff records, count_expired id cutoff records)
