-- ===== src/Registry.antt =====
-- The trust registry: signatures on it, its contents, and how it is loaded (blindage/registry/).
pub mod Store
pub mod Signing
pub mod Load
pub mod Tests
