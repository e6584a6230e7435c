-- ===== src/Crypto.antt =====
-- Encodings and signature schemes (blindage/crypto/).
pub mod Base64
pub mod Primitives
pub mod Verifiers
pub mod Octets
pub mod Rsabssa
pub mod Bbs
pub mod Tests
