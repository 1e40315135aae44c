-- ===== src/Proxy/Routes/Allowed.antt =====
-- Which tool calls of a reply crates/authz-llm-proxy/src/routes.rs lets through.
use paac.Prelude.{
  true, ◌≡◌, ◌≢◌, ◌⊎◌, ◌↔◌, inl, inr, refl, sym, ap, ◌∙◌, subst, List, [], ◌∷◌, ◌++◌, map, All, ok,
  or_else, Bool-cases, Option-cases, ok-injective,
}
use paac.Core.Request.{Principal, AuthzRequest}
use paac.Core.Decision.{AuthzDecision, DecisionEffect, allow, deny, review, is_allow}
use paac.Core.Cedar.{Cedar}
use paac.Core.HotCache.{BundleCache}
use paac.Json.{Json, as_array}
use paac.Catalog.{ResourceCatalog, authz_for_tool}
use paac.Proxy.State.{World, AppState, ToolCall, and_then-ok, count_check, count_deny}
use paac.Proxy.Routes.{
  call_id, call_name, call_args, let_through, tool_request, asked, filter_calls, filter_tool_calls,
}
use paac.Proxy.Routes.Filter.{
  Keeps-trans, IsDecided, ask-IsDecided, asked-Keeps, let_through-Keeps, count_deny-Keeps,
}

pub is_allow_iff : (e : DecisionEffect) → (is_allow e ≡ true) ↔ (e ≡ allow)
is_allow_iff allow = (λ h. refl, λ h. refl)
is_allow_iff deny = (λ h. cc, λ h. cc)
is_allow_iff review = (λ h. cc, λ h. cc)

-- The elements of an array; another value has none.
abbrev pub calls_of : Json → List Json
calls_of tcs = or_else (as_array tcs) []

-- The call that the connector gets.
abbrev pub tool_call : World → Json → ToolCall
tool_call w tc = record { id = call_id tc; name = call_name tc; arguments = call_args w tc }

module _ (engine : Cedar) (w : World) (principal : Principal) (catalog : ResourceCatalog)
    (bundle : BundleCache engine) where
  -- The request that the catalog makes of a tool call.
  abbrev pub call_request : Json → AuthzRequest
  call_request tc = authz_for_tool w.show_json catalog principal (call_name tc) (call_args w tc)

  -- A tool call that the policies under the bundle allow, or do not.
  abbrev pub IsAllowed : Json → Type 0
  IsAllowed tc =
      (d : AuthzDecision) × IsDecided engine bundle (call_request tc) d × (d.effect ≡ allow)

  abbrev pub IsRefused : Json → Type 0
  IsRefused tc =
      (d : AuthzDecision) × IsDecided engine bundle (call_request tc) d × (d.effect ≢ allow)

  -- The second list holds the calls of the first one that are allowed, in their order, and the
  -- others are refused.
  abbrev pub IsFiltered : List Json → List Json → Type 0
  IsFiltered [] out = out ≡ []
  IsFiltered (tc ∷ tcs) out =
      ((rest : List Json) × (out ≡ tc ∷ rest) × IsAllowed tc × IsFiltered tcs rest)
      ⊎ (IsRefused tc × IsFiltered tcs out)

  pub asked-IsDecided :
      (tc : Json) (s : AppState engine) {d : AuthzDecision}
      → s.engine.catalog ≡ catalog
      → s.engine.bundle ≡ bundle
      → (asked engine w principal tc s).0 ≡ ok d
      → IsDecided engine bundle (call_request tc) d
  unfolding asked tool_request count_check
  asked-IsDecided tc s {d} c b h =
      subst (λ x. IsDecided engine x (call_request tc) d) b
        (subst
          (λ x.
            IsDecided engine s.engine.bundle
              (authz_for_tool w.show_json x principal (call_name tc) (call_args w tc)) d)
          c
          (ask-IsDecided engine w (tool_request engine w s principal tc) (count_check engine s) h))

  filter_calls-IsFiltered :
      (tcs : List Json) (s : AppState engine) (out : List Json)
      → s.engine.catalog ≡ catalog
      → s.engine.bundle ≡ bundle
      → (filter_calls engine w principal tcs s).0 ≡ ok out
      → IsFiltered tcs out
  unfolding filter_calls
  filter_calls-IsFiltered [] s out c b h = sym (ok-injective h)
  filter_calls-IsFiltered (tc ∷ tcs) s out c b h =
      let (d, decided, next) = and_then-ok engine (asked engine w principal tc) _ s h in
      let told = asked-IsDecided tc s c b decided in
      let k = asked-Keeps engine w principal tc s in
      let t = (asked engine w principal tc s).1 in
      let h2 = subst (λ r. r.0 ≡ ok out) next h in
      elim (Bool-cases (is_allow d.effect)) [
        | inl yes_allow ↦
            let l = Keeps-trans engine k (let_through-Keeps engine w principal tc t) in
            let h3 = rw yes_allow at h2 in
            let (rest, found, last) =
              and_then-ok engine (filter_calls engine w principal tcs) _ (let_through engine w tc t)
                h3 in
            inl (
              rest,
              ok-injective (sym h3 ∙ ap (λ r. r.0) last),
              (d, told, (is_allow_iff d.effect).0 yes_allow),
              filter_calls-IsFiltered tcs (let_through engine w tc t) rest (l.catalog ∙ c)
                  (l.bundle ∙ b) found,
            )
        | inr refused ↦
            let l = Keeps-trans engine k (count_deny-Keeps engine w principal t) in
            inr (
              (d, told, λ e. cc),
              filter_calls-IsFiltered tcs (count_deny engine t) out (l.catalog ∙ c) (l.bundle ∙ b)
                  (rw refused at h2),
            )
      ]

  -- What the handler keeps of a message's tool calls are those that the policies allow, in their
  -- order, and every other one was refused by a decision; a value that is no array gives none.
  pub filter_tool_calls-IsFiltered :
      (tcs : Json) (s : AppState engine) (out : List Json)
      → s.engine.catalog ≡ catalog
      → s.engine.bundle ≡ bundle
      → (filter_tool_calls engine w principal tcs s).0 ≡ ok out
      → IsFiltered (calls_of tcs) out
  unfolding filter_tool_calls
  filter_tool_calls-IsFiltered tcs s out c b h = elim (Option-cases (as_array tcs)) [
    | inl absent ↦ rw absent (sym (ok-injective (rw (absent, filter_tool_calls) at h)))
    | inr (arr, listed) ↦
        rw listed (filter_calls-IsFiltered arr s out c b (rw (listed, filter_tool_calls) at h))
  ]

  -- The calls that a connector executed between two states, which are all allowed.
  abbrev pub OnlyAllowed : AppState engine → AppState engine → Type 0
  OnlyAllowed s t =
      (tcs : List Json) × (t.executed ≡ s.executed ++ map (tool_call w) tcs) × All IsAllowed tcs
