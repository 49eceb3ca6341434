-- ===== src/State.antt =====
-- The package internal/state: the owner of the active notifications.
pub mod Types
pub mod Lifetimes
pub mod Publish
pub mod Close
pub mod Active
pub mod Expiry
pub mod Producers
pub mod Commands
pub mod Run
pub mod Invariant
pub mod Timing
pub mod Fencing
pub mod Keyed
pub mod Eviction
