-- ===== src/Reconciliation.antt =====
-- packages/execution-reconciliation: operations that may have moved money, and how they end.
pub mod Types
pub mod Store
pub mod Steps
pub mod Evolution
pub mod Methods
pub mod Histories
