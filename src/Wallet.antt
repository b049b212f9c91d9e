-- ===== src/Wallet.antt =====
-- packages/wallet-signing-gate: an EVM transaction is signed and broadcast once, behind a decision.
pub mod Types
pub mod Binding
pub mod Verification
pub mod Gate
pub mod Cleared
pub mod Signing
pub mod Once
pub mod Exact
