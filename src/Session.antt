-- ===== src/Session.antt =====
-- The current session of packages/pcltm: dialogue turns, segments, and the active dialogue state.
pub mod Turn
mod Tests
pub mod Segments
pub mod Dialogue
pub mod Update
pub mod SegmentRecord
pub mod Summary
pub mod Chain
