-- ===== src/Channel.antt =====
-- packages/core/src/channel: how the application's page reaches the popup.
pub mod Web
pub mod Storage
pub mod Connection
pub mod Signer
pub mod Protocol
pub mod Redirect
pub mod Native
