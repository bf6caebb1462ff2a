-- ===== src/Controller/Tests.antt =====
-- The theorems about internal/controller at concrete inputs.
pub mod Fixtures
mod Members
mod Others
