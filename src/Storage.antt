-- ===== src/Storage.antt =====
-- internal/storage: sessions, routing decisions, the logs and the saved values, and what holds of them.
pub mod Database
pub mod Sessions
pub mod Decisions
pub mod Logs
pub mod State
pub mod Bounds
pub mod Keeps
pub mod Creation
pub mod Linear
