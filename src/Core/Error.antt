-- ===== src/Core/Error.antt =====
-- crates/authz-core/src/error.rs
use paac.Prelude.{String, Result}

pub data AuthzError : Type 0 where
  invalid_request policy cedar entity : String → AuthzError

-- The results of the kernel's functions.
abbrev pub Authz : Type 0 → Type 0
Authz A = Result AuthzError A
