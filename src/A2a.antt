-- ===== src/A2a.antt =====
-- packages/a2a-settlement-gate: a paid A2A task is delegated once, behind a decision and a settlement
-- of the required finality.
pub mod Types
pub mod Gate
pub mod Settled
pub mod Delegation
pub mod Once
