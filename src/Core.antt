-- ===== src/Core.antt =====
-- packages/decision-core: the data of actions and decisions, hashing, signing, replay protection.
pub mod Text
pub mod Json
pub mod Reasons
pub mod Time
pub mod Action
pub mod Encoding
pub mod Decision
pub mod Signing
pub mod Replay
