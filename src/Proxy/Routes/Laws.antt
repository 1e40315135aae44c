-- ===== src/Proxy/Routes/Laws.antt =====
-- When `chat_completions` of crates/authz-llm-proxy/src/routes.rs calls the upstream model.
use Prim.Native.Nat.{ℕ}
use paac.Json.{Json}
use paac.Prelude.{
  String, Bool, true, false, ◌≡◌, ◌⊎◌, inl, inr, refl, ap, ◌∙◌, subst, Option, none, some, [], ◌∷◌,
  ◌++◌, Result, ok, err, panic, or_else, is_empty, arith, Bool-cases,
}
use paac.Core.Request.{Principal, AuthzRequest}
use paac.Core.Decision.{AuthzDecision, allow, is_allow}
use paac.Core.Cedar.{Cedar}
use paac.Bridge.{Native}
use paac.Identity.Jwt.{JwtLib}
use paac.Proxy.Auth.{Headers}
use paac.Proxy.Openai.{ChatCompletionRequest, last_user_text}
use paac.Proxy.State.{
  World, Reply, AppState, and_then-state, and_then-ok, ask, who, count_check, count_deny,
  count_allow, count_upstream,
}
use paac.Proxy.Routes.{
  pass, read_reply, received, forward, bound, authorize_text, chat_completions, filter_reply,
}
use paac.Proxy.Routes.Filter.{ask-Keeps, IsDecided, ask-IsDecided, filter_reply-Keeps}
use paac.Proxy.Routes.Allowed.{is_allow_iff}

module _ (engine : Cedar) (w : World) (lib : Native) (jwt : JwtLib) where
  -- An utterance for which the upstream may be called: there is none, or the request that it is
  -- bound to is one that the policies allow.
  abbrev pub MayForward : AppState engine → Principal → String → Type 0
  MayForward s principal utterance =
      (is_empty utterance ≡ true)
      ⊎ ((req : AuthzRequest) × (bound engine w lib jwt principal utterance s ≡ ok req)
          × ((d : AuthzDecision) × IsDecided engine s.engine.bundle req d × (d.effect ≡ allow)))

  read_reply-sent :
      (principal : Principal) (status : ℕ) (r : Result String Json) (s : AppState engine)
      → (read_reply engine w principal status r s).1.sent ≡ s.sent
  unfolding read_reply
  read_reply-sent principal status (err e) s = refl
  read_reply-sent principal status panic s = refl
  read_reply-sent principal status (ok v) s =
      let k = (filter_reply-Keeps engine w principal v s).sent in
      and_then-state engine (λ t. t.sent ≡ s.sent) (filter_reply engine w principal v) _ s k
        (λ out _. k)

  received-sent :
      (principal : Principal) (stream : Option Bool) (r : Result String Reply) (s : AppState engine)
      → (received engine w principal stream r s).1.sent ≡ s.sent
  unfolding received
  received-sent principal stream (err e) s = refl
  received-sent principal stream panic s = refl
  received-sent principal (some true) (ok reply) s = refl
  received-sent principal (some false) (ok reply) s =
      read_reply-sent principal reply.status reply.body s
  received-sent principal none (ok reply) s = read_reply-sent principal reply.status reply.body s

  forward-sent :
      (principal : Principal) (body : ChatCompletionRequest) (s : AppState engine)
      → (forward engine w principal body s).1.sent ≡ s.sent ++ body ∷ []
  unfolding forward count_upstream
  forward-sent principal body s = received-sent principal body.stream _ _

  pass-sent :
      (req : AuthzRequest) (d : AuthzDecision) (s : AppState engine)
      → (pass engine w req d s).1.sent ≡ s.sent
  unfolding pass count_allow count_deny
  pass-sent req d s = ground arith

  pass-ok :
      (req : AuthzRequest) (d : AuthzDecision) (s : AppState engine)
      → (pass engine w req d s).0 ≡ ok tt
      → d.effect ≡ allow
  unfolding pass
  pass-ok req d s h = elim (Bool-cases (is_allow d.effect)) [
    | inl allowed ↦ (is_allow_iff d.effect).0 allowed
    | inr refused ↦ let no_pass = rw (refused, pass) at h in cc
  ]

  authorize_text-sent :
      (principal : Principal) (utterance : String) (s : AppState engine)
      → (authorize_text engine w lib jwt principal utterance s).1.sent ≡ s.sent
  unfolding authorize_text count_check
  authorize_text-sent principal utterance s = elim (Bool-cases (is_empty utterance)) [
    | inl nothing ↦ rw (authorize_text, nothing) refl
    | inr something ↦
        rw (authorize_text, something)
          (and_then-state engine (λ t. t.sent ≡ s.sent)
            (λ t. (bound engine w lib jwt principal utterance t, t)) _ s refl
            (λ req _.
              and_then-state engine (λ t. t.sent ≡ s.sent)
                (λ t. ask engine w req (count_check engine t)) (pass engine w req) s
                (ask-Keeps engine w req (count_check engine s)).sent
                (λ d _. pass-sent req d _ ∙ (ask-Keeps engine w req (count_check engine s)).sent)))
  ]

  authorize_text-MayForward :
      (principal : Principal) (utterance : String) (s : AppState engine)
      → (authorize_text engine w lib jwt principal utterance s).0 ≡ ok tt
      → MayForward s principal utterance
  unfolding authorize_text count_check
  authorize_text-MayForward principal utterance s h = elim (Bool-cases (is_empty utterance)) [
    | inl nothing ↦ inl nothing
    | inr something ↦
        let (req, made, next) =
          and_then-ok engine (λ t. (bound engine w lib jwt principal utterance t, t)) _ s
            (rw (something, authorize_text) at h) in
        let h2 = subst (λ r. r.0 ≡ ok tt) next (rw (something, authorize_text) at h) in
        let (d, told, last) =
          and_then-ok engine (λ t. ask engine w req (count_check engine t)) (pass engine w req) s
            h2 in
        inr (
          req,
          made,
          (
            d,
            ask-IsDecided engine w req (count_check engine s) told,
            pass-ok req d _ (subst (λ r. r.0 ≡ ok tt) last h2),
          ),
        )
  ]

  -- What a request can have sent to the upstream: nothing, or its own body once, and that only for
  -- a principal whom its headers give, and if its last user text is empty or bound to a request
  -- that the policies allow.
  abbrev pub IsGuarded :
      Headers → ChatCompletionRequest → AppState engine → AppState engine → Type 0
  IsGuarded headers body s t =
      (t.sent ≡ s.sent)
      ⊎ ((t.sent ≡ s.sent ++ body ∷ [])
          × ((principal : Principal) × ((who engine jwt w headers s).0 ≡ ok principal)
              × MayForward s principal (or_else (last_user_text body.messages) "")))

  -- A chat request is sent to the upstream at most once, and only after its last user text, if it is
  -- not empty, was allowed for the principal of its headers.
  pub chat_completions-IsGuarded :
      (headers : Headers) (body : ChatCompletionRequest) (s : AppState engine)
      → IsGuarded headers body s (chat_completions engine w lib jwt headers body s).1
  unfolding chat_completions who bound
  chat_completions-IsGuarded headers body s =
      let utterance = or_else (last_user_text body.messages) "" in
      let t = (who engine jwt w headers s).1 in
      and_then-state engine (IsGuarded headers body s) (who engine jwt w headers) _ s (inl refl)
        (λ principal known.
          let quiet = authorize_text-sent principal utterance t in
          and_then-state engine (IsGuarded headers body s)
            (authorize_text engine w lib jwt principal utterance) _ t (inl quiet)
            (λ _ passed. inr (
              forward-sent principal body _ ∙ ap (λ x. x ++ body ∷ []) quiet,
              (principal, known, authorize_text-MayForward principal utterance t passed),
            )))
