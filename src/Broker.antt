-- ===== src/Broker.antt =====
-- internal/broker: the broker that keeps the keyring and decides on wrap and unwrap requests.
pub mod Challenge
pub mod Keys
pub mod Rotation
pub mod Subjects
pub mod Policy
pub mod Tables
pub mod ChallengeRows
pub mod NodeRows
pub mod GrantRows
pub mod NodeVerifier
pub mod Audit
pub mod EnrollmentService
pub mod Config
pub mod Seed
pub mod DiagnosticExamples
pub mod LoadExamples
pub mod Admin
pub mod NodeSamples
mod NodeExamples
mod EnrollmentExamples
pub mod Message
pub mod Service
pub mod Samples
mod Examples
mod Scenarios
mod Handlers
mod RowExamples
