-- ===== src/Server.antt =====
-- The first version's server: its tables in services/api/src/schema.ts, its sessions in
-- services/api/src/auth.ts, the consumption of an authorization in services/api/src/consumption.ts and
-- the handlers of services/api/src/server.ts.
pub mod Tables
pub mod Auth
pub mod Consumption
pub mod Handlers
pub mod Governance
pub mod Registry
pub mod Ledger
pub mod Aggregate
pub mod Connections
pub mod Signaling
pub mod Delegation
