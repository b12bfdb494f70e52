-- ===== src/Lib.antt =====
-- A model of OpenBao Attested Unseal (Go), and the theorems that make it correct.
--
-- The program keeps the wrapping keys of OpenBao's auto-unseal in a broker. A client asks the broker
-- for a challenge, presents evidence with it, and has a plaintext wrapped or a blob unwrapped where
-- the policy allows; operators rotate the wrapping key, and can recover the secret that protects a
-- broker from Shamir shares.
--
-- The parts, and the files that model them (paths from the repository's root):
--   Keyring        internal/keyring: key references and their texts (Key), the ring of key versions
--                  with NewRing, Active and keyForDecrypt (Ring), the authenticated metadata
--                  (Metadata), Ring.Encrypt and Ring.Decrypt (Wrap). AES-GCM and the JSON encoder are
--                  the parameter Primitives with the laws PrimitiveLaws.
--   Recovery       internal/recovery/package.go: the arithmetic of GF(256) (Field), splitSecret and
--                  combineShares (Shares), Create, Recover and the encoding of shares (Package). JSON,
--                  base64, SHA-256 and the text of times are the parameter Codec with CodecLaws.
--   Keyprotection  internal/keyprotection: protected key records, the development protector and
--                  Loader.LoadKeyring.
--   Broker         internal/broker: Challenge is memory_challenge.go, ChallengeRows the table of
--                  challenges in sqlite.go, Keys and Rotation are the tables and transactions of
--                  sqlite.go and rotation.go on key versions and rotation
--                  operations, Seed is what fills a new database, Config is config.go, Subjects is
--                  the table of subjects, Policy is policy.go, Message and Service are service.go
--                  with the handlers Challenge, Wrap, Unwrap and Status. Audit is the two audit sinks,
--                  a table and a file that can fail, as service.go and admin.go call them. The policy
--                  and the service take the store as a record of operations (Policy.Store); Tables
--                  fills it with the tables modelled here. NodeRows is the tables of node evidence,
--                  node enrollments and publishers in sqlite.go, GrantRows those of enrollment
--                  requests and grants, NodeVerifier is
--                  node_evidence_authorization.go and node_evidence_verifier.go, Admin is admin.go
--                  with the handlers Status, ChallengeNodeEvidence, PublishNodeEvidence,
--                  ListNodeEvidence (NodeList) and CheckEvidence (Check), EnrollmentService is
--                  enrollment_service.go with its handlers, who may call them and what is audited,
--                  with the failures of its sinks.
--   Nodeevidence   internal/nodeevidence: the table of evidence in memory (Table), evidence, challenges
--                  and submissions with their normalisation (Evidence), enrollments (Enrollment), and
--                  the repository of enrollments in memory (Memory).
--   Tpm            internal/tpm: PCR selections and policies (Pcr), TPM evidence and VerifyQuote
--                  (Quote), the evaluation of claims against a policy (Policy). Hashes, signatures and
--                  the structures of go-tpm are the parameter TpmLibrary (Library).
--   Prelude        shared types and lemmas, and what the program uses of Go's standard library on
--                  texts: trimming, cutting, sorting, lower case, base64, hexadecimal and decimal
--                  numbers.
-- They interact as in the program: a node agent asks for a challenge of node evidence and publishes
-- evidence, which PublishNodeEvidence authorizes against the enrollment of the node, verifies with
-- VerifyQuote and stores under the revision of the enrollment; the policy reads it from there.
-- Unwrap verifies the evidence, asks the policy, which reads the
-- subject, consumes the challenge and reads the key version, then has the keyring loaded from the
-- protected records and decrypts with the version that the blob names.
--
-- Conventions. A text or a byte slice is the list of its bytes; in the arithmetic of Recovery a byte
-- is its eight bits, so that the operations on bytes cannot leave the range. A copy of a value is
-- the value. A nil pointer is `none`, an error the sentinel that it wraps (Prelude.Result), a time
-- the number of its nanoseconds since 1970 (with 0 for the zero time where the source tests for it),
-- a duration in the configuration an int64 that wraps as in the source, and a uint32 version a
-- number whose bound `2 ^ 32 - 1` is tested where the source parses or
-- computes one. A table is a list of rows under the constraints that its schema gives it; a
-- transaction that fails gives an error and the caller keeps the state. The loops are structural,
-- and gfMul and gfPow halve a byte, so that eight rounds end them: there is no other fuel.
--
-- Not modelled: telemetry, logging and protobuf transport, which carry no decision; failures of the
-- database itself, except where an audit event is inserted; the reading and parsing of the
-- configuration files; the signatures of enrollment requests and grants; the sealed state of
-- the TPM; the Kubernetes attestation, the KMS plugin, the agents and the command lines.
pub mod Prelude
pub mod Keyring
pub mod Recovery
pub mod Broker
pub mod Keyprotection
pub mod Tpm
pub mod Nodeevidence
