-- ===== src/Continuity.antt =====
-- Continuity state: src/jvc/continuity/state.py.
pub mod State
pub mod Commands
pub mod Revisions
pub mod Ids
pub mod Progress
mod Tests
