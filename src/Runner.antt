-- ===== src/Runner.antt =====
-- The runner of declared checks: src/jvc/execution/runner.py.
pub mod Environment
pub mod Check
pub mod Sanitized
pub mod Pinned
pub mod Ran
pub mod Tests
