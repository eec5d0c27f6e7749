-- ===== src/Semantic.antt =====
-- internal/semantic: hashes of prompts, and the cache of routes.
pub mod Hash
pub mod Cache
pub mod Persistent
pub mod Restart
pub mod Routes
