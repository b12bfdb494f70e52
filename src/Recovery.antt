-- ===== src/Recovery.antt =====
-- internal/recovery: Shamir shares over the field of 256 elements, and recovery packages.
pub mod Field
pub mod Shares
pub mod Codec
pub mod Package
pub mod Samples
mod Examples
