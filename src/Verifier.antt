-- ===== src/Verifier.antt =====
-- The verifier of blindage/verifier.
pub mod Tests
pub mod Replay
pub mod Challenge
pub mod Session
pub mod Checks
pub mod Credential
pub mod Token
