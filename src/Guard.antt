-- ===== src/Guard.antt =====
-- The life cycle of a guarded write: src/jvc/policy/guard.py.
pub mod Manifest
pub mod Validate
pub mod Files
mod Made
pub mod Capture
pub mod Apply
pub mod Postimages
pub mod Receipts
mod Recorded
pub mod Lifecycle
pub mod Order
pub mod Unbound
pub mod Progress
mod Sample
mod Tests
