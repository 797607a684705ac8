-- ===== src/Locks.antt =====
-- The interprocess locks: src/jvc/policy/locks.py.
pub mod Names
pub mod Placement
pub mod Acquire
pub mod Waiting
pub mod Processes
pub mod Serial
pub mod Invariant
pub mod Refined
pub mod Outside
mod Tests
