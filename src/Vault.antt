-- ===== src/Vault.antt =====
-- packages/vault/src: the tools that build the vault.
pub mod Config
