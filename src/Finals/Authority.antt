-- ===== src/Finals/Authority.antt =====
-- services/api/src/finals-authority.ts: the class FinalsAuthority. An operation is a function from the
-- record that the store hands to its transaction to a value and the record that the store keeps; the
-- store keeps the old record where the operation throws. `now` is the clock, and the identifiers that
-- the source draws with `randomUUID` are arguments.
pub mod Options
pub mod Issue
pub mod Permit
pub mod Consume
pub mod Lifecycle
