-- ===== src/Mtp.antt =====
-- packages/mtp-authority: an external authority that has to authorise an action, and to consume its
-- token, before the local decision is consumed.
pub mod Store
pub mod Client
pub mod Provider
pub mod Uniqueness
pub mod Histories
pub mod Proven
pub mod Evidence
