-- ===== src/Memory.antt =====
-- The memory authority of packages/pcltm: its contracts, its policy kernel, the tables of its
-- ledger, the projection outbox and the service that retires and expires claims.
pub mod Contracts
pub mod Policy
pub mod Ledger
pub mod Outbox
pub mod Lifecycle
