-- ===== src/Proxy/Handlers.antt =====
-- crates/authz-llm-proxy/src/routes.rs: the handlers other than the chat.
pub mod Laws
use Prim.Native.Nat.{ℕ, suc}
use paac.Prelude.{
  String, ◌^^◌, Bool, true, false, Option, none, some, List, [], ◌∷◌, ◌++◌, Result, ok, err, panic,
  ◌>>=◌, map_err, or_else, is_none, not, if◌then◌else◌,
}
use paac.Core.Request.{Principal, AuthzRequest}
use paac.Core.Decision.{AuthzDecision, is_allow}
use paac.Core.Cedar.{Cedar}
use paac.Core.HotCache.{load, evaluator_config}
use paac.Json.{Json, text, null, boolean, array, object, Fields, nil, end, field}
use paac.Catalog.{authz_for_retrieve}
use paac.Identity.Jwt.{JwtLib}
use paac.Store.{PaacStore, get_evidence, or_other}
use paac.Proxy.Error.{ProxyError, Proxied, bad_request, internal, show_authz}
use paac.Proxy.Auth.{Headers}
use paac.Proxy.Engine.{allow_or_forbid, forbid, is_ready}
use paac.Proxy.Openai.{RetrieveRequest}
use paac.Proxy.Agents.{
  McpCallParams, A2aMessage, AgentResult, authorize_mcp_tool_call, authorize_a2a_message,
}
use paac.Proxy.State.{
  World, AppState, Handler, ToolCall, and_then, done, branch, count_check, count_deny, count_allow,
  ask, who,
}
use paac.Proxy.Routes.{Answer, json, decided, agent}

abbrev text_or_null : Option String → Json
text_or_null none = null
text_or_null (some s) = text s

-- the store's evidence, if there is a store and it has some
abbrev pub stored_evidence : String → Option PaacStore → Option AuthzDecision
stored_evidence id none = none
stored_evidence id (some t) = get_evidence id t

module _ (engine : Cedar) (w : World) where
  unfoldable pub ready : Handler engine Answer
  ready s =
      let hot = load engine s.engine.bundle in
      and_then engine (done engine (is_ready engine s.engine))
        (λ _. done engine (
          ok (
            json 200 (
              object (
                field "ready" (boolean true) (
                  field "policy_revision" (text hot.policy_revision) (
                    field "signed" (boolean (not (is_none hot.policy_signature)))
                      (field "signature_key_id" (text_or_null hot.signature_key_id) end))))))))
        s

  -- The counter of a decision: an allow, or anything else.
  unfoldable pub count_decision : AuthzDecision → AppState engine → AppState engine
  unfolding count_allow count_deny
  count_decision d s = if is_allow d.effect then count_allow engine s else count_deny engine s

  -- `POST /v1/check`
  unfoldable pub check_route : AuthzRequest → Handler engine Answer
  unfolding count_decision count_check
  check_route req =
      and_then engine (λ s. ask engine w req (count_check engine s))
        (λ d s. (ok (decided d), count_decision d s))

  -- `find_decision` is the search of the audit file.
  unfoldable pub explain : (String → Option AuthzDecision) → String → Handler engine Answer
  explain find_decision id s =
      elim (or_other (stored_evidence id s.engine.store) (find_decision id)) [
        | some d ↦ (ok (decided d), s)
        | none ↦ (err (bad_request ("decision " ^^ (id ^^ " not found"))), s)
      ]

  -- `st.engine.allow_or_forbid(&req)`
  unfoldable pub ask_allowed : AuthzRequest → Handler engine AuthzDecision
  ask_allowed req s =
      let (r, after) = allow_or_forbid engine (w.stamp s.drawn) (w.latency s.drawn) req s.engine in
      (r, record s { engine = after; drawn = suc s.drawn })

  module _ (jwt : JwtLib) where
    unfoldable pub retrieve : Headers → RetrieveRequest → Handler engine Answer
    unfolding ask_allowed
    retrieve headers body = and_then engine (who engine jwt w headers) (λ principal s.
        and_then engine
          (ask_allowed
            (authz_for_retrieve s.engine.catalog principal body.collection body.document_id))
          (λ _. done engine (
            ok (
              json 200 (
                object (
                  field "collection" (text body.collection) (
                    field "chunks" (array nil) (
                      field "note" (text "authz ALLOW — connector would return chunks here")
                        end)))))))
          s)

    -- The decision on a tool call of an agent, which takes its own stamp.
    unfoldable pub mcp_decision : Principal → McpCallParams → Handler engine AgentResult
    mcp_decision principal params s = (
      map_err (λ e. bad_request (show_authz e))
          (authorize_mcp_tool_call engine w.show_json (w.stamp s.drawn) principal params
            s.engine.catalog (evaluator_config engine s.engine.bundle)),
      record s { drawn = suc s.drawn },
    )

    -- The call of the connector, and the answer that is made of what it gives.
    unfoldable pub mcp_execute : McpCallParams → AgentResult → Handler engine Answer
    mcp_execute params result s =
        let call : ToolCall = record {
          id = w.uuid s.drawn;
          name = params.name;
          arguments = params.arguments;
        } in
        and_then engine (done engine (map_err internal (w.execute call)))
          (λ content. done engine (
            ok (
              json 200 (
                object (
                  field "content" content
                    (field "decision_id" (text result.decision.evidence.decision_id) end))))))
          (record s { executed = s.executed ++ call ∷ []; drawn = suc s.drawn })

    unfoldable pub mcp_tools_call : Headers → McpCallParams → Handler engine Answer
    unfolding mcp_decision mcp_execute
    mcp_tools_call headers params = and_then engine (who engine jwt w headers) (λ principal.
        and_then engine (mcp_decision principal params) (λ result.
          branch engine result.allowed (mcp_execute params result)
            (done engine (err (forbid engine "MCP tools/call denied" result.decision)))))

    unfoldable pub a2a_authorize : Headers → A2aMessage → Handler engine Answer
    a2a_authorize headers msg = and_then engine (who engine jwt w headers) (λ principal s. (
      map_err (λ e. bad_request (show_authz e))
            (authorize_a2a_message engine (w.stamp s.drawn) principal msg
              (evaluator_config engine s.engine.bundle))
          >>= λ r. ok (agent r),
      record s { drawn = suc s.drawn },
    ))
