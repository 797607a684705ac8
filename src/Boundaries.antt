-- ===== src/Boundaries.antt =====
-- Filesystem boundaries: src/jvc/policy/boundaries.py.
pub mod Paths
pub mod Targets
pub mod Spelling
pub mod Permitted
mod Tests
