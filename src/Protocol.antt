-- ===== src/Protocol.antt =====
-- packages/protocol
pub mod Json
pub mod Temporal
pub mod Schemas
pub mod Contact
pub mod Session
pub mod Signing
pub mod Sdp
pub mod Finals
