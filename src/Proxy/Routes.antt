-- ===== src/Proxy/Routes.antt =====
-- crates/authz-llm-proxy/src/routes.rs: the handlers that decide.
pub mod Filter
pub mod Allowed
pub mod Executed
pub mod Laws
pub mod Connector
use Prim.Native.Nat.{ℕ}
use paac.Prelude.{
  String, ◌^^◌, Bool, true, false, Option, none, some, List, [], ◌∷◌, ◌++◌, Result, ok, err, panic,
  map_err, or_else, is_nil, is_empty, trim_end_by, is_char, if◌then◌else◌,
}
use paac.Core.Error.{Authz}
use paac.Core.Request.{Principal, AuthzRequest}
use paac.Core.Decision.{AuthzDecision, DecisionEffect, allow, deny, review, is_allow}
use paac.Core.Cedar.{Cedar}
use paac.Core.Evaluate.{EvaluatorConfig}
use paac.Core.HotCache.{evaluator_config}
use paac.Json.{
  Json, null, boolean, number, text, array, object, Items, nil, cons, Fields, end, field, get,
  as_str, as_array, lookup_field, insert_field, remove_field, to_items,
}
use paac.Catalog.{authz_for_tool, authz_for_retrieve}
use paac.Identity.Jwt.{JwtLib}
use paac.Bridge.{Native, NlExtraction, plain, bind_extraction, extract_structured}
use paac.Store.{get_evidence}
use paac.Proxy.Error.{
  ProxyError, Proxied, forbidden, bad_request, upstream, internal, show_authz, show_bridge,
}
use paac.Proxy.Auth.{Headers}
use paac.Proxy.Engine.{forbid, allow_or_forbid}
use paac.Proxy.Openai.{ChatCompletionRequest, RetrieveRequest, last_user_text}
use paac.Proxy.Agents.{
  McpCallParams, A2aMessage, AgentResult, authorize_mcp_tool_call, authorize_a2a_message,
}
use paac.Proxy.State.{
  World, AppState, Handler, ToolCall, Reply, and_then, done, branch, count_check, count_deny,
  count_allow, count_upstream, ask, who,
}

-- `tc.pointer("/function/" + k).and_then(as_str)`
unfoldable pub function_text : String → Json → Option String
function_text k tc = elim (get "function" tc) [
  | none ↦ none
  | some f ↦ elim (get k f) [ none ↦ none | some v ↦ as_str v ]
]

unfoldable pub call_name : Json → String
unfolding function_text
call_name tc = or_else (function_text "name" tc) ""

unfoldable pub call_args : World → Json → Json
unfolding function_text
call_args w tc = or_else (w.parse_json (or_else (function_text "arguments" tc) "{}")) (object end)

unfoldable pub call_id : Json → String
call_id tc = elim (get "id" tc) [ none ↦ "" | some v ↦ or_else (as_str v) "" ]

abbrev pub blocked_text : String
blocked_text = "PAAC blocked all tool calls for this turn."

-- What a message becomes, when its tool calls are filtered.
unfoldable pub put_tool_calls : List Json → Json → Json
put_tool_calls filtered (object fs) =
    if is_nil filtered
    then object (insert_field "content" (text blocked_text) (remove_field "tool_calls" fs))
    else object (insert_field "tool_calls" (array (to_items filtered)) fs)
put_tool_calls filtered v = v

-- The value in a field of an object, put back.
unfoldable pub put_field : String → Json → Json → Json
put_field k v (object fs) = object (insert_field k v fs)
put_field k v w = w

-- What a client gets.
pub data Answer : Type 0 where
  json : ℕ → Json → Answer
  -- the upstream's bytes, passed on as they come
  event_stream : ℕ → Reply → Answer
  decided : AuthzDecision → Answer
  agent : AgentResult → Answer

module _ (engine : Cedar) (w : World) where
  -- A tool call that is let through, executed if the settings say so; what the connector gives is
  -- not looked at.
  unfoldable pub let_through : Json → AppState engine → AppState engine
  unfolding call_id call_name call_args count_allow
  let_through tc s =
      let call : ToolCall = record {
        id = call_id tc;
        name = call_name tc;
        arguments = call_args w tc;
      } in
      if s.cfg.connectors.execute_tools
      then record (count_allow engine s) { executed = s.executed ++ call ∷ [] }
      else count_allow engine s

  unfoldable pub tool_request : AppState engine → Principal → Json → AuthzRequest
  unfolding call_name call_args
  tool_request s principal tc =
      authz_for_tool w.show_json s.engine.catalog principal (call_name tc) (call_args w tc)

  -- the state in which a call was counted, and asked about
  unfoldable pub asked :
      Principal → Json → AppState engine → Proxied AuthzDecision × AppState engine
  unfolding tool_request
  asked principal tc s = ask engine w (tool_request s principal tc) (count_check engine s)

  unfoldable pub filter_calls : Principal → List Json → Handler engine (List Json)
  filter_calls principal [] = done engine (ok [])
  filter_calls principal (tc ∷ tcs) = and_then engine (asked principal tc) (λ d.
      branch engine (is_allow d.effect)
        (λ s.
          and_then engine (filter_calls principal tcs) (λ out. done engine (ok (tc ∷ out)))
            (let_through tc s))
        (λ s. filter_calls principal tcs (count_deny engine s)))

  unfoldable pub filter_tool_calls : Principal → Json → Handler engine (List Json)
  unfolding filter_calls
  filter_tool_calls principal tcs = elim (as_array tcs) [
    | none ↦ done engine (ok [])
    | some arr ↦ filter_calls principal arr
  ]

  -- a choice of the reply, with its tool calls filtered
  unfoldable pub filter_choice : Principal → Json → Handler engine Json
  filter_choice principal choice = elim (get "message" choice) [
    | none ↦ done engine (ok choice)
    | some msg ↦ elim (get "tool_calls" msg) [
      | none ↦ done engine (ok choice)
      | some tcs ↦
          and_then engine (filter_tool_calls principal tcs)
            (λ out. done engine (ok (put_field "message" (put_tool_calls out msg) choice)))
    ]
  ]

  unfoldable pub filter_choices : Principal → List Json → Handler engine (List Json)
  filter_choices principal [] = done engine (ok [])
  filter_choices principal (c ∷ cs) =
      and_then engine (filter_choice principal c)
        (λ d. and_then engine (filter_choices principal cs) (λ ds. done engine (ok (d ∷ ds))))

  unfoldable pub filter_reply : Principal → Json → Handler engine Json
  filter_reply principal reply = elim (get "choices" reply) [
    | none ↦ done engine (ok reply)
    | some choices ↦ elim (as_array choices) [
      | none ↦ done engine (ok reply)
      | some cs ↦
          and_then engine (filter_choices principal cs)
            (λ ds. done engine (ok (put_field "choices" (array (to_items ds)) reply)))
    ]
  ]

  -- The guard of a decision: it is counted, and only an allow goes on.
  unfoldable pub pass : AuthzRequest → AuthzDecision → Handler engine (Unit {0})
  unfolding count_deny count_allow
  pass req d s = elim (is_allow d.effect) [
    | true ↦ (ok tt, count_allow engine s)
    | false ↦ (
      err (
          forbid engine
            ("PAAC denied access: "
              ^^ (req.action.name
                  ^^ (" on "
                      ^^ (req.resource.kind
                          ^^ (" (decision " ^^ (d.evidence.decision_id ^^ ")"))))))
            d),
      count_deny engine s,
    )
  ]

  -- What a body that was read as JSON becomes.
  unfoldable pub read_reply : Principal → ℕ → Result String Json → Handler engine Answer
  unfolding filter_reply
  read_reply principal status (err e) = done engine (err (upstream e))
  read_reply principal status panic = done engine panic
  read_reply principal status (ok v) =
      and_then engine (filter_reply principal v) (λ out. done engine (ok (json status out)))

  -- What the upstream's answer becomes: a stream is passed on, other bodies are read.
  unfoldable pub received : Principal → Option Bool → Result String Reply → Handler engine Answer
  unfolding read_reply
  received principal stream (err e) = done engine (err (upstream e))
  received principal stream panic = done engine panic
  received principal (some true) (ok reply) = done engine (ok (event_stream reply.status reply))
  received principal (some false) (ok reply) = read_reply principal reply.status reply.body
  received principal none (ok reply) = read_reply principal reply.status reply.body

  -- The call of the upstream.
  unfoldable pub forward : Principal → ChatCompletionRequest → Handler engine Answer
  unfolding received count_upstream
  forward principal body s =
      let url = trim_end_by (is_char b'/') s.cfg.upstream.base_url ^^ "/v1/chat/completions" in
      received principal body.stream (w.send url s.cfg.upstream.api_key body)
        (record (count_upstream engine s) { sent = s.sent ++ body ∷ [] })

  module _ (lib : Native) (jwt : JwtLib) where
    -- What an utterance is taken to ask for, if no heuristic fits.
    abbrev pub general_chat : String → NlExtraction lib
    general_chat utterance = plain lib utterance "READ" "GENERAL_CHAT" none 0

    unfoldable pub understood : String → NlExtraction lib
    understood utterance = elim (extract_structured lib utterance) [
      | ok ext ↦ ext
      | _ ↦ general_chat utterance
    ]

    -- The request made of an utterance.
    unfoldable pub bound : Principal → String → AppState engine → Proxied AuthzRequest
    unfolding understood
    bound principal utterance s =
        map_err (λ e. bad_request (show_bridge e))
          (bind_extraction lib principal (understood utterance) (some s.engine.catalog))

    -- The authorization of an utterance, before anything is sent.
    unfoldable pub authorize_text : Principal → String → Handler engine (Unit {0})
    unfolding bound pass
    authorize_text principal utterance =
        if is_empty utterance
        then done engine (ok tt)
        else and_then engine (λ s. (bound principal utterance s, s))
            (λ req. and_then engine (λ s. ask engine w req (count_check engine s)) (pass req))

    unfoldable pub chat_completions : Headers → ChatCompletionRequest → Handler engine Answer
    unfolding authorize_text forward
    chat_completions headers body = and_then engine (who engine jwt w headers) (λ principal.
        and_then engine (authorize_text principal (or_else (last_user_text body.messages) ""))
          (λ _. forward principal body))
