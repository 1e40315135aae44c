-- ===== src/Policy/Error.antt =====
-- crates/authz-policy/src/error.rs
use paac.Prelude.{String, Result}

pub data PolicyError : Type 0 where
  parse validation store crypto cedar io : String → PolicyError

abbrev pub Fallible : Type 0 → Type 0
Fallible A = Result PolicyError A
