-- ===== src/Finals.antt =====
-- services/api/src/finals-model.ts and services/api/src/finals-authority.ts
pub mod Record
pub mod Model
pub mod Authority
pub mod Evolution
pub mod Effects
pub mod Steps
pub mod Entitled
pub mod Receipt
pub mod Workspace
pub mod Bootstrap
