-- ===== src/Configuration.antt =====
-- The registered routes: src/jvc/configuration.py.
pub mod Registry
pub mod Table
pub mod Validate
pub mod Aliases
pub mod Passed
pub mod Found
pub mod Tests
