-- ===== src/Wallet.antt =====
-- packages/core/src/wallet: the passkey's handles, and the key that a gesture derives.
pub mod Handle
pub mod Sandbox
pub mod Enrollment
