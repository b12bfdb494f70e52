-- ===== src/Nodeevidence.antt =====
-- internal/nodeevidence: verified evidence of nodes, and the enrollments that it is verified by.
pub mod Table
pub mod Evidence
pub mod Enrollment
pub mod Memory
mod Examples
