-- ===== src/Policy.antt =====
-- packages/policy-engine: the policy, its evaluation, the stores, and the local decision provider.
pub mod Document
pub mod Window
pub mod Evaluate
pub mod Permits
pub mod Screening
pub mod Verdicts
pub mod Stores
pub mod SameText
pub mod Provider
