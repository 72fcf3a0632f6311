-- ===== src/Tests.antt =====
-- Runs of the definitions on small inputs, and the theorems at those inputs.
pub mod World
pub mod Finals
pub mod Protocol
pub mod Verifier
pub mod Server
pub mod Governance
pub mod Workspace
pub mod Bootstrap
pub mod Web
pub mod Rtc
mod Ledger
mod Aggregate
mod Witness
mod Package
mod Connections
mod Signaling
