-- ===== src/Tests.antt =====
-- Runs of the theorems at concrete inputs.
pub mod Samples
pub mod Actions
pub mod Replay
pub mod Evaluation
pub mod Provider
pub mod Verifier
pub mod Reconciliation
pub mod Guard
pub mod Wallet
pub mod Execution
pub mod A2a
pub mod Ap2
pub mod Mtp
pub mod Ap2Outcome
