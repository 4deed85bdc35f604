-- ===== src/Consent.antt =====
-- packages/core/src/auth-popup/sign: what a signing request is decoded to, how it is shown, what is
-- simulated of it, and what is signed for it.
pub mod Lines
pub mod Types
pub mod Decode
pub mod TypedData
pub mod Request
pub mod Display
pub mod Format
pub mod Screen
pub mod Leaves
pub mod Batch
pub mod Sign
pub mod Payload
pub mod Grants
pub mod Fees
pub mod Severity
pub mod Roster
pub mod Delegation
pub mod Danger
