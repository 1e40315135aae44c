-- ===== src/Core.antt =====
-- The authorization kernel, crates/authz-core.
pub mod Error
pub mod Ids
pub mod Request
pub mod Builder
pub mod Decision
pub mod Cedar
pub mod Entities
pub mod Evaluate
pub mod HotCache
