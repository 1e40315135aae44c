-- ===== src/Catalog.antt =====
-- The resource catalog, crates/authz-catalog/src/catalog.rs.
mod Defs
pub mod Laws
pub mod Validation
pub mod Load
unfoldable pub use Defs.*
