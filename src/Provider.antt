-- ===== src/Provider.antt =====
-- packages/core/src/provider: the EIP-1193 provider over a connection and a send engine.
pub mod Types
pub mod Methods
pub mod Acts
pub mod Guard
pub mod Engine
pub mod Sponsorship
pub mod Events
