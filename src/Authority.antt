-- ===== src/Authority.antt =====
-- Operator authority: src/jvc/policy/authority.py.
pub mod Base64
pub mod Values
pub mod Keys
pub mod Tokens
pub mod Redeem
pub mod Encoding
pub mod Signed
pub mod Once
pub mod Issue
pub mod Provision
mod Tests
