-- ===== src/Executor.antt =====
-- The governed executor: src/jvc/execution/executor.py.
pub mod Write
pub mod Atomic
pub mod Cas
pub mod Governed
pub mod Contained
pub mod Authorized
pub mod Repository
pub mod Git
pub mod Owned
pub mod Branch
pub mod Switching
pub mod Output
pub mod Diff
pub mod Inspected
mod Diffs
pub mod Fitting
mod Tests
mod Scenes
mod Runs
