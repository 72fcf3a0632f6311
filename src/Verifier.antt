-- ===== src/Verifier.antt =====
-- packages/verifier
pub mod Bytes
pub mod Snapshot
pub mod Bundle
pub mod Guard
pub mod Context
pub mod Package
