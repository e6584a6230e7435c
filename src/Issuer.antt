-- ===== src/Issuer.antt =====
-- The issuer's server (blindage/issuer/).
pub mod Eligibility
pub mod Storage
pub mod Keys
pub mod App
pub mod Proofing
pub mod Tests
