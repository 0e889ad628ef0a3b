-- ===== src/Semantic.antt =====
-- The semantic memory of packages/pcltm/memory: facts, their store and the resolver of conflicts.
mod Tests
pub mod Dates
pub mod Fact
pub mod Store
pub mod Resolver
