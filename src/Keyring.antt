-- ===== src/Keyring.antt =====
-- internal/keyring: key references, key versions, rings, authenticated metadata and encryption.
pub mod Key
pub mod Ring
pub mod Metadata
pub mod Primitives
pub mod Wrap
pub mod Samples
mod Examples
