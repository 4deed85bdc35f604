-- ===== src/Tests.antt =====
-- The theorems at concrete inputs.
pub mod Fixtures
pub mod Helpers
pub mod Screen
pub mod Driver
pub mod Tables
pub mod Popup
pub mod Channel
pub mod Wallet
pub mod Recovery
pub mod Client
pub mod Redirect
pub mod Vault
pub mod Provider
