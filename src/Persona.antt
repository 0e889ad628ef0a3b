-- ===== src/Persona.antt =====
-- The persona mode state machine of packages/persona_engine/persona_orchestrator.
pub mod Types
pub mod Transition
pub mod Samples
pub mod Table
pub mod Shadow
pub mod Manager
pub mod Evidence
pub mod Nomination
