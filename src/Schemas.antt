-- ===== src/Schemas.antt =====
-- The protocol objects of blindage/schemas.
pub mod Enums
pub mod Issuer
pub mod Token
pub mod Presentation
pub mod Vc
