-- ===== src/Recovery.antt =====
-- The recovery store: src/jvc/recovery/store.py.
pub mod Receipt
pub mod World
pub mod Reconcile
pub mod Recover
pub mod Errors
pub mod Gate
pub mod Select
pub mod Save
pub mod Rollback
pub mod Frame
pub mod Settled
pub mod Sound
pub mod Restart
pub mod Disk
pub mod Effects
mod Tests
pub mod Reconciled
mod Retention
