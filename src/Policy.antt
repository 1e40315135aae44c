-- ===== src/Policy.antt =====
-- Policies: the DSL, its translation to Cedar, signed bundles and the store. crates/authz-policy.
pub mod Error
pub mod Dsl
pub mod Translate
pub mod Sign
pub mod Store
