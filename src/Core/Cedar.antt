-- ===== src/Core/Cedar.antt =====
-- What the program uses of the crate `cedar_policy`, which is not part of the repository. Where an
-- error is only printed, it is the text that it prints.
use paac.Prelude.{String, Option, List, IndexMap, Result}

pub data Verdict : Type 0 where
  allow deny : Verdict

-- `Response`: the decision, and the diagnostics' reason and errors.
pub record Response (PolicyId : Type 0) : Type 0 where
  pub decision : Verdict
  pub reason : List PolicyId
  pub errors : List String

pub record Cedar : Type 1 where
  pub TypeName : Type 0
  pub EntityId : Type 0
  pub Expression : Type 0
  pub Entity : Type 0
  pub Entities : Type 0
  pub Context : Type 0
  pub Request : Type 0
  pub PolicySet : Type 0
  pub PolicyId : Type 0
  -- `EntityTypeName::from_str`, `EntityId::from_str`, `RestrictedExpression::from_str`
  pub parse_type : String → Result String TypeName
  pub parse_id : String → Result String EntityId
  pub parse_expression : String → Result String Expression
  -- `Entity::new`, with its attributes and its parents
  pub new_entity :
      TypeName × EntityId → IndexMap Expression → List (TypeName × EntityId) → Result String Entity
  -- `Entities::from_entities`, of the entities put into the hash set, in that order
  pub from_entities : List Entity → Result String Entities
  -- `Context::from_json_str`, `Request::new`, `Authorizer::is_authorized`
  pub context_from_json : String → Result String Context
  pub new_request :
      TypeName × EntityId
      → TypeName × EntityId
      → TypeName × EntityId
      → Context
      → Result String Request
  pub is_authorized : Request → PolicySet → Entities → Response PolicyId
  -- `policy(id)…annotation("id")`, then `annotation(id, "id")`, then `id.to_string()`
  pub policy_annotation : PolicySet → PolicyId → Option String
  pub set_annotation : PolicySet → PolicyId → Option String
  pub show_policy_id : PolicyId → String
  -- `PolicySet::from_str`
  pub parse_policy_set : String → Result String PolicySet
  -- `Validator::validate` against the schema text, in strict mode: the errors, if it does not pass
  pub validate : String → PolicySet → Result String (Option (List String))
