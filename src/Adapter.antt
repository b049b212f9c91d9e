-- ===== src/Adapter.antt =====
-- packages/x402-adapter: from an x402 payment to an action, and the guard around its settlement.
pub mod Binding
pub mod Guard
