-- ===== src/Contracts.antt =====
-- The execution contracts: src/jvc/contracts.py.
pub mod Json
pub mod Validate
pub mod Verdict
pub mod Expand
pub mod Runtime
pub mod Check
pub mod Shape
pub mod Arrays
pub mod Parts
pub mod Accepted
pub mod Persistence
pub mod Load
pub mod Loaded
pub mod Typed
pub mod Verdicts
pub mod Satisfied
pub mod Probing
pub mod Tests
