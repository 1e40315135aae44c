-- ===== src/Identity/Model.antt =====
-- crates/authz-identity/src/model.rs and error.rs: what the adapters make of a user and of a directory.
use paac.Prelude.{String, Option, List, IndexMap, Result}
use paac.Core.Request.{RelationshipKind}

pub record CanonicalIdentity : Type 0 where
  pub id : String
  pub display_name : String
  pub email : Option String
  pub source : String
  pub roles : List String
  pub groups : List String
  pub attrs : IndexMap String

pub record Group : Type 0 where
  pub id : String
  pub name : String
  pub members : List String
  pub source : String

-- The fields `from` and `to` of the struct are `start` and `target` here.
pub record RelationshipEdge : Type 0 where
  pub kind : RelationshipKind
  pub start : String
  pub target : String
  pub source : String

pub record IdentitySnapshot : Type 0 where
  pub users : List CanonicalIdentity
  pub groups : List Group
  pub relationships : List RelationshipEdge
  pub synced_at : Option String

pub data IdentityError : Type 0 where
  msg io jwt : String → IdentityError

abbrev pub Identified : Type 0 → Type 0
Identified A = Result IdentityError A
