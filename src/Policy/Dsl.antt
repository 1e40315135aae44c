-- ===== src/Policy/Dsl.antt =====
-- crates/authz-policy/src/dsl.rs: the parser of the policy language, line by line.
mod Defs
pub mod Shape
unfoldable pub use Defs.*
