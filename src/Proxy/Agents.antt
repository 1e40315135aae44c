-- ===== src/Proxy/Agents.antt =====
-- crates/authz-llm-proxy/src/mcp.rs and a2a.rs: tool calls and messages of agents.
use paac.Prelude.{
  String, Bool, none, some, List, [], ◌∷◌, insert, ok, ◌>>=◌, first, join, length, show_nat,
}
use paac.Core.Error.{Authz}
use paac.Core.Request.{Principal, AuthzRequest, action_new}
use paac.Core.Decision.{AuthzDecision, Stamp, is_allow}
use paac.Core.Cedar.{Cedar}
use paac.Core.Evaluate.{EvaluatorConfig, evaluate}
use paac.Json.{Json}
use paac.Catalog.{ResourceCatalog, authz_for_tool}

pub record McpCallParams : Type 0 where
  pub name : String
  pub arguments : Json

-- `McpAuthzResult` and `A2aAuthzResult`
pub record AgentResult : Type 0 where
  pub allowed : Bool
  pub decision : AuthzDecision

pub record A2aMessage : Type 0 where
  pub message_id : String
  pub from_agent : String
  pub to_agent : String
  pub skill : String
  pub payload : Json
  pub delegation_chain : List String

unfoldable pub a2a_request : Principal → A2aMessage → AuthzRequest
a2a_request principal msg = record {
  principal = principal;
  action = action_new "A2A_SEND";
  resource = record {
    kind = "AGENT_MESSAGE";
    id = some msg.to_agent;
    attrs = ("skill", msg.skill) ∷ [];
  };
  subject = none;
  context = record {
    values = insert "delegation_depth" (show_nat (length msg.delegation_chain)) (
        insert "delegation_chain" (join ">" msg.delegation_chain) (
          insert "skill" msg.skill
            (insert "to_agent" msg.to_agent (insert "from_agent" msg.from_agent []))));
  };
  relationships = [];
  acting_as = some msg.from_agent;
  on_behalf_of = first msg.delegation_chain;
}

module _ (engine : Cedar) where
  -- `show` is `Value::to_string`.
  unfoldable pub authorize_mcp_tool_call :
      (Json → String)
      → Stamp
      → Principal
      → McpCallParams
      → ResourceCatalog
      → EvaluatorConfig engine
      → Authz AgentResult
  authorize_mcp_tool_call show stamp principal params cat cfg = do
    d ← evaluate engine stamp (authz_for_tool show cat principal params.name params.arguments) cfg
    ok (record { allowed = is_allow d.effect; decision = d })

  unfoldable pub authorize_a2a_message :
      Stamp → Principal → A2aMessage → EvaluatorConfig engine → Authz AgentResult
  unfolding a2a_request
  authorize_a2a_message stamp principal msg cfg = do
    d ← evaluate engine stamp (a2a_request principal msg) cfg
    ok (record { allowed = is_allow d.effect; decision = d })
