-- ===== src/Proxy/Routes/Connector.antt =====
-- Which calls a chat request of crates/authz-llm-proxy/src/routes.rs can have executed.
use Prim.Native.Nat.{ℕ}
use paac.Prelude.{
  String, Bool, true, false, ◌≡◌, ◌⊎◌, inl, inr, refl, ◌∙◌, Option, none, some, List, [], ◌∷◌,
  Result, ok, err, panic, or_else, is_empty, arith, Bool-cases, Option-cases,
}
use paac.Core.Request.{Principal, AuthzRequest}
use paac.Core.Decision.{AuthzDecision}
use paac.Core.Cedar.{Cedar}
use paac.Core.HotCache.{BundleCache}
use paac.Json.{Json, get, as_array}
use paac.Catalog.{ResourceCatalog}
use paac.Bridge.{Native}
use paac.Identity.Jwt.{JwtLib}
use paac.Proxy.Auth.{Headers}
use paac.Proxy.Openai.{ChatCompletionRequest, last_user_text}
use paac.Proxy.State.{
  World, Reply, AppState, and_then-state, ask, who, count_check, count_deny, count_allow,
  count_upstream,
}
use paac.Proxy.Routes.{
  filter_tool_calls, filter_choice, filter_choices, filter_reply, read_reply, received, forward,
  pass, bound, authorize_text, chat_completions,
}
use paac.Proxy.Routes.Filter.{filter_choice-Keeps, ask-Keeps}
use paac.Proxy.Routes.Allowed.{OnlyAllowed}
use paac.Proxy.Routes.Executed.{Only, Only-same, Only-trans, filter_tool_calls-OnlyAllowed}

module _ (engine : Cedar) (w : World) (principal : Principal) (catalog : ResourceCatalog)
    (bundle : BundleCache engine) where
  filter_choice-Only :
      (choice : Json) (s : AppState engine)
      → s.engine.catalog ≡ catalog
      → s.engine.bundle ≡ bundle
      → Only engine w principal catalog bundle s (filter_choice engine w principal choice s).1
  unfolding filter_choice
  filter_choice-Only choice s c b = elim (Option-cases (get "message" choice)) [
    | inl absent ↦ rw (filter_choice, absent) (Only-same engine w principal catalog bundle s s refl)
    | inr (msg, has_msg) ↦ elim (Option-cases (get "tool_calls" msg)) [
      | inl absent ↦
          rw (filter_choice, has_msg, absent) (Only-same engine w principal catalog bundle s s refl)
      | inr (tcs, listed) ↦
          let only = filter_tool_calls-OnlyAllowed engine w principal catalog bundle tcs s c b in
          rw (filter_choice, has_msg, listed)
            (and_then-state engine (Only engine w principal catalog bundle s)
              (filter_tool_calls engine w principal tcs) _ s only (λ out _. only))
    ]
  ]

  filter_choices-Only :
      (cs : List Json) (s : AppState engine)
      → s.engine.catalog ≡ catalog
      → s.engine.bundle ≡ bundle
      → Only engine w principal catalog bundle s (filter_choices engine w principal cs s).1
  unfolding filter_choices
  filter_choices-Only [] s c b = Only-same engine w principal catalog bundle s s refl
  filter_choices-Only (choice ∷ cs) s c b =
      let t = (filter_choice engine w principal choice s).1 in
      let k = filter_choice-Keeps engine w principal choice s in
      let here = filter_choice-Only choice s c b in
      let more = filter_choices-Only cs t (k.catalog ∙ c) (k.bundle ∙ b) in
      let later =
        Only-trans engine w principal catalog bundle s t (filter_choices engine w principal cs t).1
          here more in
      and_then-state engine (Only engine w principal catalog bundle s)
        (filter_choice engine w principal choice) _ s here
        (λ d _.
          and_then-state engine (Only engine w principal catalog bundle s)
            (filter_choices engine w principal cs) _ t later (λ ds _. later))

  filter_reply-Only :
      (reply : Json) (s : AppState engine)
      → s.engine.catalog ≡ catalog
      → s.engine.bundle ≡ bundle
      → Only engine w principal catalog bundle s (filter_reply engine w principal reply s).1
  unfolding filter_reply
  filter_reply-Only reply s c b = elim (Option-cases (get "choices" reply)) [
    | inl absent ↦ rw (filter_reply, absent) (Only-same engine w principal catalog bundle s s refl)
    | inr (choices, found) ↦ elim (Option-cases (as_array choices)) [
      | inl absent ↦
          rw (filter_reply, found, absent) (Only-same engine w principal catalog bundle s s refl)
      | inr (cs, listed) ↦
          let only = filter_choices-Only cs s c b in
          rw (filter_reply, found, listed)
            (and_then-state engine (Only engine w principal catalog bundle s)
              (filter_choices engine w principal cs) _ s only (λ ds _. only))
    ]
  ]

  read_reply-Only :
      (status : ℕ) (r : Result String Json) (s : AppState engine)
      → s.engine.catalog ≡ catalog
      → s.engine.bundle ≡ bundle
      → Only engine w principal catalog bundle s (read_reply engine w principal status r s).1
  unfolding read_reply
  read_reply-Only status (err e) s c b = Only-same engine w principal catalog bundle s s refl
  read_reply-Only status panic s c b = Only-same engine w principal catalog bundle s s refl
  read_reply-Only status (ok v) s c b =
      let only = filter_reply-Only v s c b in
      and_then-state engine (Only engine w principal catalog bundle s)
        (filter_reply engine w principal v) _ s only (λ out _. only)

  received-Only :
      (stream : Option Bool) (r : Result String Reply) (s : AppState engine)
      → s.engine.catalog ≡ catalog
      → s.engine.bundle ≡ bundle
      → Only engine w principal catalog bundle s (received engine w principal stream r s).1
  unfolding received
  received-Only stream (err e) s c b = Only-same engine w principal catalog bundle s s refl
  received-Only stream panic s c b = Only-same engine w principal catalog bundle s s refl
  received-Only (some true) (ok reply) s c b = Only-same engine w principal catalog bundle s s refl
  received-Only (some false) (ok reply) s c b = read_reply-Only reply.status reply.body s c b
  received-Only none (ok reply) s c b = read_reply-Only reply.status reply.body s c b

  -- What forwarding a request has executed is allowed.
  pub forward-Only :
      (body : ChatCompletionRequest) (s : AppState engine)
      → s.engine.catalog ≡ catalog
      → s.engine.bundle ≡ bundle
      → Only engine w principal catalog bundle s (forward engine w principal body s).1
  unfolding forward count_upstream
  forward-Only body s c b = received-Only body.stream _ _ c b

module _ (engine : Cedar) (w : World) (lib : Native) (jwt : JwtLib) where
  -- A state with the same bundle and catalog in which nothing more was executed.
  abbrev IsQuiet : AppState engine → AppState engine → Type 0
  IsQuiet s t =
      (t.engine.catalog ≡ s.engine.catalog)
      × (t.engine.bundle ≡ s.engine.bundle)
      × (t.executed ≡ s.executed)

  pass-IsQuiet :
      (req : AuthzRequest) (d : AuthzDecision) (s t : AppState engine)
      → IsQuiet s t
      → IsQuiet s (pass engine w req d t).1
  unfolding pass count_allow count_deny
  pass-IsQuiet req d s t h = ground arith

  ask-IsQuiet :
      (req : AuthzRequest) (s : AppState engine)
      → IsQuiet s (ask engine w req (count_check engine s)).1
  unfolding ask count_check
  ask-IsQuiet req s =
      let k = ask-Keeps engine w req (count_check engine s) in (k.catalog, k.bundle, refl)

  authorize_text-IsQuiet :
      (principal : Principal) (utterance : String) (s : AppState engine)
      → IsQuiet s (authorize_text engine w lib jwt principal utterance s).1
  unfolding authorize_text
  authorize_text-IsQuiet principal utterance s = elim (Bool-cases (is_empty utterance)) [
    | inl nothing ↦ rw (authorize_text, nothing) (refl, refl, refl)
    | inr something ↦
        rw (authorize_text, something)
          (and_then-state engine (IsQuiet s)
            (λ t. (bound engine w lib jwt principal utterance t, t)) _ s (refl, refl, refl)
            (λ req _.
              and_then-state engine (IsQuiet s) (λ t. ask engine w req (count_check engine t))
                (pass engine w req) s (ask-IsQuiet req s)
                (λ d _.
                  pass-IsQuiet req d s (ask engine w req (count_check engine s)).1
                    (ask-IsQuiet req s))))
  ]

  -- What a chat request can have executed: nothing, or tool calls that the policies allow to the
  -- principal of its headers.
  abbrev pub IsConnected : Headers → AppState engine → AppState engine → Type 0
  IsConnected headers s t =
      (t.executed ≡ s.executed)
      ⊎ ((principal : Principal) × ((who engine jwt w headers s).0 ≡ ok principal)
          × OnlyAllowed engine w principal s.engine.catalog s.engine.bundle s t)

  -- Whatever the outcome of a chat request and whatever the upstream answered, the tool calls that
  -- the connector executed for it are ones that the policies allow to the principal of its headers.
  pub chat_completions-IsConnected :
      (headers : Headers) (body : ChatCompletionRequest) (s : AppState engine)
      → IsConnected headers s (chat_completions engine w lib jwt headers body s).1
  unfolding chat_completions who
  chat_completions-IsConnected headers body s =
      let utterance = or_else (last_user_text body.messages) "" in
      let t = (who engine jwt w headers s).1 in
      and_then-state engine (IsConnected headers s) (who engine jwt w headers) _ s (inl refl)
        (λ principal known.
          let u = (authorize_text engine w lib jwt principal utterance t).1 in
          let (c, b, still) = authorize_text-IsQuiet principal utterance t in
          and_then-state engine (IsConnected headers s)
            (authorize_text engine w lib jwt principal utterance) _ t (inl still)
            (λ _ passed.
              let only =
                forward-Only engine w principal s.engine.catalog s.engine.bundle body u c b in
              let quiet = Only-same engine w principal s.engine.catalog s.engine.bundle s u still in
              inr (
                principal,
                known,
                Only-trans engine w principal s.engine.catalog s.engine.bundle s u
                    (forward engine w principal body u).1 quiet only,
              )))
