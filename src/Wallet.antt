-- ===== src/Wallet.antt =====
-- The wallet (blindage/wallet/).
pub mod Tests
pub mod Client
pub mod Spending
pub mod Proving
pub mod Vault
