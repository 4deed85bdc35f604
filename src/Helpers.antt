-- ===== src/Helpers.antt =====
-- packages/core/src/helpers: what applications use beside the client.
pub mod Amount
pub mod Balances
pub mod Chains
pub mod Errors
pub mod Names
