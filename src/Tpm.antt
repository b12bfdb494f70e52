-- ===== src/Tpm.antt =====
-- internal/tpm: selections and digests of PCRs, quotes and the policies that they are held against.
pub mod Library
pub mod Pcr
pub mod Quote
pub mod Policy
pub mod Samples
mod Examples
