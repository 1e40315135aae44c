-- ===== src/Identity.antt =====
-- crates/authz-identity/src: who a request comes from, and what is known of users and groups.
pub mod Model
pub mod Cache
pub mod Jwt
pub mod Drafts
pub mod Ldap
pub mod Providers
pub mod Saml
pub mod Discover
