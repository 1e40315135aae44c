-- ===== src/Core/Builder.antt =====
-- crates/authz-core/src/builder.rs: each method takes the builder and returns the new one.
pub mod Laws
use paac.Prelude.{
  ℕ, String, ◌^^◌, Option, none, some, List, [], ◌∷◌, ◌++◌, IndexMap, insert, ok, ok_or, ◌>>=◌,
  ◌>>◌, length, is_nil, join, show_nat, if◌then◌else◌,
}
use paac.Core.Error.{Authz, invalid_request}
use paac.Core.Ids.{new, principal_id, agent_id, action_name, resource_kind, resource_id}
use paac.Core.Request.{
  Principal, Action, Resource, Subject, ContextMap, Relationship, AuthzRequest, validate,
  action_new, resource_of_kind, with_roles,
}

pub record AuthzRequestBuilder : Type 0 where
  pub principal : Option Principal
  pub action : Option Action
  pub resource : Option Resource
  pub subject : Option Subject
  pub context : ContextMap
  pub relationships : List Relationship
  pub acting_as : Option String
  pub on_behalf_of : Option String
  pub delegation_chain : List String

abbrev pub empty : AuthzRequestBuilder
empty = record {
  principal = none;
  action = none;
  resource = none;
  subject = none;
  context = record { values = [] };
  relationships = [];
  acting_as = none;
  on_behalf_of = none;
  delegation_chain = [];
}

unfoldable pub principal : String → List String → AuthzRequestBuilder → Authz AuthzRequestBuilder
principal id roles b = do
  p ← new principal_id id
  ok (record b { principal = some (with_roles p.text roles) })

unfoldable pub principal_obj : Principal → AuthzRequestBuilder → Authz AuthzRequestBuilder
principal_obj p b = do _ ← new principal_id p.id; ok (record b { principal = some p })

unfoldable pub agent_principal :
    String → List String → String → AuthzRequestBuilder → Authz AuthzRequestBuilder
agent_principal agent roles human b = do
  a ← new agent_id agent
  h ← new principal_id human
  ok (record b {
    principal = some (with_roles a.text roles);
    acting_as = some a.text;
    on_behalf_of = some h.text;
  })

unfoldable pub action : String → AuthzRequestBuilder → Authz AuthzRequestBuilder
action name b = do a ← new action_name name; ok (record b { action = some (action_new a.text) })

unfoldable pub of_kind : String → AuthzRequestBuilder → Authz AuthzRequestBuilder
of_kind kind b = do
  k ← new resource_kind kind
  ok (record b { resource = some (resource_of_kind k.text) })

-- `Some(i) => Some(ResourceId::new(i)?)`
abbrev checked_id : Option String → Authz (Option String)
checked_id none = ok none
checked_id (some i) = do r ← new resource_id i; ok (some r.text)

unfoldable pub resource :
    String → Option String → IndexMap String → AuthzRequestBuilder → Authz AuthzRequestBuilder
resource kind id attrs b = do
  k ← new resource_kind kind
  i ← checked_id id
  ok (record b { resource = some (record { kind = k.text; id = i; attrs = attrs }) })

unfoldable pub subject : String → List String → AuthzRequestBuilder → Authz AuthzRequestBuilder
subject id groups b = do
  s ← new principal_id id
  ok (record b {
    subject = some (record { id = s.text; kind = "Employee"; groups = groups; attrs = [] });
  })

unfoldable pub context_kv : String → String → AuthzRequestBuilder → AuthzRequestBuilder
context_kv k v b = record b { context = record { values = insert k v b.context.values } }

unfoldable pub relationship : Relationship → AuthzRequestBuilder → AuthzRequestBuilder
relationship rel b = record b { relationships = b.relationships ++ rel ∷ [] }

unfoldable pub delegation_hop : String → AuthzRequestBuilder → Authz AuthzRequestBuilder
delegation_hop id b = do
  p ← new principal_id id
  ok (record b { delegation_chain = b.delegation_chain ++ p.text ∷ [] })

-- The two context values that a delegation chain is recorded as.
unfoldable pub record_delegation : List String → IndexMap String → IndexMap String
record_delegation chain values =
    if is_nil chain
    then values
    else insert "delegation_depth" (show_nat (length chain))
        (insert "delegation_chain" (join ">" chain) values)

unfoldable pub build : AuthzRequestBuilder → Authz AuthzRequest
unfolding record_delegation
build b = do
  p ← ok_or (invalid_request "principal required") b.principal
  a ← ok_or (invalid_request "action required") b.action
  r ← ok_or (invalid_request "resource required") b.resource
  let req : AuthzRequest = record {
    principal = p;
    action = a;
    resource = r;
    subject = b.subject;
    context = record { values = record_delegation b.delegation_chain b.context.values };
    relationships = b.relationships;
    acting_as = b.acting_as;
    on_behalf_of = b.on_behalf_of;
  }
  validate req
  ok req
