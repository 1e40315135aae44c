-- ===== src/Proxy/Handlers/Laws.antt =====
-- What the handlers of crates/authz-llm-proxy/src/routes.rs for tools and checks promise.

use paac.Prelude.{
  String, Bool, true, false, ◌≡◌, ◌⊎◌, inl, inr, refl, sym, ap, ◌∙◌, subst, [], ◌∷◌, ◌++◌, ok,
  map_err, map_err-eq-ok, >>=-eq-ok, ok-injective,
}
use paac.Core.Request.{Principal}
use paac.Core.Decision.{AuthzDecision, allow, is_allow}
use paac.Core.Cedar.{Cedar}
use paac.Core.Evaluate.{evaluate}
use paac.Core.HotCache.{evaluator_config}
use paac.Catalog.{authz_for_tool}
use paac.Identity.Jwt.{JwtLib}
use paac.Proxy.Error.{internal}
use paac.Proxy.Auth.{Headers}
use paac.Proxy.Agents.{McpCallParams, AgentResult, authorize_mcp_tool_call}
use paac.Proxy.State.{World, AppState, Handler, ToolCall, and_then-state, done, branch, who}
use paac.Proxy.Routes.{Answer}
use paac.Proxy.Routes.Filter.{IsDecided}
use paac.Proxy.Routes.Allowed.{is_allow_iff}
use paac.Proxy.Handlers.{mcp_decision, mcp_execute, mcp_tools_call}

authorize-ok :
    (engine : Cedar) (w : World) (jwt : JwtLib) (principal : Principal) (params : McpCallParams)
    (s : AppState engine) {r : AgentResult}
    → (mcp_decision engine w jwt principal params s).0 ≡ ok r
    → IsDecided engine s.engine.bundle
        (authz_for_tool w.show_json s.engine.catalog principal params.name params.arguments)
        r.decision
      × (r.allowed ≡ is_allow r.decision.effect)
unfolding mcp_decision authorize_mcp_tool_call evaluator_config
authorize-ok engine w jwt principal params s h =
    let (d, decided_so, made) =
      >>=-eq-ok (evaluate engine (w.stamp s.drawn) _ _) _ (map_err-eq-ok _ _ h) in
    (
      (w.stamp s.drawn, decided_so ∙ ap (λ r. ok r.decision) (ok-injective made)),
      subst (λ r. r.allowed ≡ is_allow r.decision.effect) (ok-injective made) refl,
    )

module _ (engine : Cedar) (w : World) (jwt : JwtLib) where
  -- What a tool call of an agent can have the connector execute: nothing, or the call that was
  -- asked for, once, and that only for a principal whom the headers give and with a decision that
  -- allows it.
  abbrev pub IsGuardedCall : Headers → McpCallParams → AppState engine → AppState engine → Type 0
  IsGuardedCall headers params s t =
      (t.executed ≡ s.executed)
      ⊎ ((id : String) × (t.executed
            ≡ s.executed
              ++ record { id = id; name = params.name; arguments = params.arguments } ∷ [])
          × ((principal : Principal) × ((who engine jwt w headers s).0 ≡ ok principal)
              × ((d : AuthzDecision) × IsDecided engine s.engine.bundle
                    (authz_for_tool w.show_json s.engine.catalog principal params.name
                      params.arguments)
                    d
                  × (d.effect ≡ allow))))

  mcp_execute-executed :
      (params : McpCallParams) (r : AgentResult) (s : AppState engine)
      → (mcp_execute engine w jwt params r s).1.executed
        ≡ s.executed
          ++ record { id = w.uuid s.drawn; name = params.name; arguments = params.arguments } ∷ []
  unfolding mcp_execute
  mcp_execute-executed params r s =
      let call : ToolCall = record {
        id = w.uuid s.drawn;
        name = params.name;
        arguments = params.arguments;
      } in
      and_then-state engine (λ t. t.executed ≡ s.executed ++ call ∷ [])
        (done engine (map_err internal (w.execute call))) _ _ refl (λ content _. refl)

  branch-state :
      (P : AppState engine → Type 0) (b : Bool) (m n : Handler engine Answer) (s : AppState engine)
      → (b ≡ true → P (m s).1)
      → P (n s).1
      → P (branch engine b m n s).1
  branch-state P true m n s h k = h refl
  branch-state P false m n s h k = k

  -- A tool call of an agent is executed at most once, and only after it was allowed for the
  -- principal of its headers.
  pub mcp_tools_call-IsGuardedCall :
      (headers : Headers) (params : McpCallParams) (s : AppState engine)
      → IsGuardedCall headers params s (mcp_tools_call engine w jwt headers params s).1
  unfolding mcp_tools_call who mcp_decision
  mcp_tools_call-IsGuardedCall headers params s =
      let t = (who engine jwt w headers s).1 in
      let Guarded = IsGuardedCall headers params s in
      and_then-state engine Guarded (who engine jwt w headers) _ s (inl refl) (λ principal known.
        and_then-state engine Guarded (mcp_decision engine w jwt principal params) _ t (inl refl)
          (λ r told.
            let u = (mcp_decision engine w jwt principal params t).1 in
            let (decided_so, same) = authorize-ok engine w jwt principal params t told in
            branch-state Guarded r.allowed (mcp_execute engine w jwt params r) _ u
              (λ allowed. inr (
                w.uuid u.drawn,
                mcp_execute-executed params r u,
                (
                  principal,
                  known,
                  (r.decision, decided_so, (is_allow_iff r.decision.effect).0 (sym same ∙ allowed)),
                ),
              ))
              (inl refl)))
