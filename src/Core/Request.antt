-- ===== src/Core/Request.antt =====
-- crates/authz-core/src/request.rs
use paac.Prelude.{String, Bool, Option, none, List, [], IndexMap, ok, reject_if, trim, is_empty}
use paac.Core.Error.{Authz, invalid_request}

pub record Principal : Type 0 where
  pub id : String
  pub roles : List String
  pub groups : List String
  pub attrs : IndexMap String

pub record Action : Type 0 where
  pub name : String

pub record Resource : Type 0 where
  pub kind : String
  pub id : Option String
  pub attrs : IndexMap String

pub record Subject : Type 0 where
  pub id : String
  pub kind : String
  pub groups : List String
  pub attrs : IndexMap String

pub record ContextMap : Type 0 where
  pub values : IndexMap String

pub data RelationshipKind : Type 0 where
  manager_of direct_reports group_member delegation : RelationshipKind

pub record Relationship : Type 0 where
  pub kind : RelationshipKind
  pub source : String
  pub target : String

pub record AuthzRequest : Type 0 where
  pub principal : Principal
  pub action : Action
  pub resource : Resource
  pub subject : Option Subject
  pub context : ContextMap
  pub relationships : List Relationship
  pub acting_as : Option String
  pub on_behalf_of : Option String

-- `trim().is_empty()`
abbrev pub is_blank : String → Bool
is_blank s = is_empty (trim s)

unfoldable pub validate : AuthzRequest → Authz (Unit {0})
validate req = reject_if (is_blank req.principal.id) (invalid_request "principal.id is required") (
    reject_if (is_blank req.action.name) (invalid_request "action.name is required") (
      reject_if (is_blank req.resource.kind) (invalid_request "resource.kind is required") (ok tt)))

unfoldable pub action_new : String → Action
action_new name = record { name = name }

unfoldable pub resource_of_kind : String → Resource
resource_of_kind kind = record { kind = kind; id = none; attrs = [] }

unfoldable pub with_roles : String → List String → Principal
with_roles id roles = record { id = id; roles = roles; groups = []; attrs = [] }
