-- ===== src/Ap2.antt =====
-- packages/ap2-runtime-gate: a payment under AP2 mandates is run once, behind the official verification
-- of the mandates and a decision.
pub mod Types
pub mod Binding
pub mod Gate
pub mod Verified
pub mod Delegation
pub mod Once
pub mod Bounds
pub mod Outcome
pub mod Completion
