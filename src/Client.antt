-- ===== src/Client.antt =====
-- packages/core/src/client: how the client sends a batch.
pub mod Io
pub mod Gas
pub mod Rpc
pub mod Resolve
pub mod UserOp
pub mod Send
pub mod Discipline
pub mod Quote
pub mod Asked
pub mod Signed
pub mod Rails
pub mod Simulate
pub mod Track
