-- ===== src/Crypto/Bbs.antt =====
-- BBS signatures (blindage/crypto/bbs.py) over the curve that py_ecc implements.
pub mod Curve
pub mod Group
pub mod Keys
pub mod Encoding
pub mod Blocks
pub mod Sign
pub mod Proof
pub mod Generate
pub mod Check
pub mod Complete
pub mod SignVerify
pub mod Handled
pub mod Toy
pub mod Tests
pub mod Raising
pub mod Indexes
