-- ===== src/Injection.antt =====
-- The injection arbitration of packages/pcltm/injection.
mod Tests
pub mod Candidate
pub mod Conflict
pub mod Budget
pub mod Packet
pub mod Arbitrator
