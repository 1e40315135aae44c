-- ===== src/Proxy/State.antt =====
-- crates/authz-llm-proxy/src/state.rs and connectors/mod.rs: the state of the gateway, which each
-- handler takes and returns. `sent` and `executed` record, in order, what went to the upstream model
-- and to the connector; `drawn` counts the evaluations, for which the clock gives times and stamps.
use Prim.Native.Nat.{ℕ, suc, ◌+◌, ◌*◌, ◌%◌}
use paac.Prelude.{String, Bool, true, false, Option, List, [], Result, ok, err, panic, ◌≡◌, refl}
use paac.Core.Decision.{AuthzDecision, Stamp}
use paac.Core.Request.{Principal, AuthzRequest}
use paac.Core.Cedar.{Cedar}
use paac.Json.{Json}
use paac.Identity.Cache as Cache
use paac.Identity.Cache.{IdentityCache}
use paac.Identity.Jwt.{JwtLib, JwtOidcAdapter}
use paac.Proxy.Error.{Proxied}
use paac.Proxy.Config.{ProxyConfig, is_production}
use paac.Proxy.Engine.{AuthzEngine, check}
use paac.Proxy.Auth.{Headers, resolve_principal}
use paac.Proxy.Openai.{ChatCompletionRequest}

pub record ToolCall : Type 0 where
  pub id : String
  pub name : String
  pub arguments : Json

-- The counters are `u64`.
pub record Metrics : Type 0 where
  pub checks_total : ℕ
  pub denies_total : ℕ
  pub allows_total : ℕ
  pub upstream_calls : ℕ

abbrev pub no_metrics : Metrics
no_metrics = record { checks_total = 0; denies_total = 0; allows_total = 0; upstream_calls = 0 }

-- What the upstream answers: its status, and what its body holds if it is read as JSON.
pub record Reply : Type 0 where
  pub status : ℕ
  pub body : Result String Json

-- The world outside: the clock and the random stamps by the count of draws, `serde_json`'s reader
-- and printer, the upstream and the connector.
pub record World : Type 0 where
  pub now : ℕ → ℕ
  pub latency : ℕ → ℕ
  pub stamp : ℕ → Stamp
  pub uuid : ℕ → String
  pub parse_json : String → Option Json
  pub show_json : Json → String
  pub send : String → Option String → ChatCompletionRequest → Result String Reply
  pub execute : ToolCall → Result String Json

unfoldable pub bump : ℕ → ℕ
bump n = (n + 1) % 18446744073709551616

unfoldable pub jwt_of : ProxyConfig → JwtOidcAdapter
jwt_of cfg = record {
  hmac_secret = cfg.identity.jwt_hmac_secret;
  jwks_url = cfg.identity.jwks_url;
  require_exp = is_production cfg.mode;
}

module _ (kernel : Cedar) where
  pub record AppState : Type 0 where
    pub cfg : ProxyConfig
    pub engine : AuthzEngine kernel
    pub jwt : JwtOidcAdapter
    pub identity_cache : IdentityCache
    pub metrics : Metrics
    pub sent : List ChatCompletionRequest
    pub executed : List ToolCall
    pub drawn : ℕ

  -- `AppState::new`; the lifetime is given in seconds, `second` is the ticks of one.
  unfoldable pub app_new : ℕ → ProxyConfig → AuthzEngine kernel → AppState
  unfolding jwt_of
  app_new second cfg e = record {
    cfg = cfg;
    engine = e;
    jwt = jwt_of cfg;
    identity_cache = Cache.cache_new (cfg.identity.cache_ttl_secs * second);
    metrics = no_metrics;
    sent = [];
    executed = [];
    drawn = 0;
  }

  -- A step of a handler, and two in a row: an error ends the handler in the state it has reached.
  abbrev pub Handler : Type 0 → Type 0
  Handler A = AppState → Proxied A × AppState

  module _ {A B : Type 0} where
    abbrev pub go_on : (A → Handler B) → Proxied A × AppState → Proxied B × AppState
    go_on f (ok a, s) = f a s
    go_on f (err e, s) = (err e, s)
    go_on f (panic, s) = (panic, s)

    unfoldable pub and_then : Handler A → (A → Handler B) → Handler B
    and_then m f s = go_on f (m s)

    -- The parts of a handler that succeeds.
    pub and_then-ok :
        (m : Handler A) (f : A → Handler B) (s : AppState) {b : B}
        → (and_then m f s).0 ≡ ok b
        → (a : A) × ((m s).0 ≡ ok a) × (and_then m f s ≡ f a (m s).1)
    unfolding and_then
    and_then-ok m f s h = go (m s) h
      where
        go :
            (r : Proxied A × AppState) {b : B}
            → (go_on f r).0 ≡ ok b
            → (a : A) × (r.0 ≡ ok a) × (go_on f r ≡ f a r.1)
        go (ok a, s) h = (a, refl, refl)
        go (err e, s) h = cc
        go (panic, s) h = cc

    -- What holds of the state after a handler in two steps: it must hold after the first one, and
    -- after the second one where that is reached.
    pub and_then-state :
        (P : AppState → Type 0) (m : Handler A) (f : A → Handler B) (s : AppState)
        → P (m s).1
        → ((a : A) → (m s).0 ≡ ok a → P (f a (m s).1).1)
        → P (and_then m f s).1
    unfolding and_then
    and_then-state P m f s first second = go (m s) first second
      where
        go :
            (r : Proxied A × AppState)
            → P r.1
            → ((a : A) → r.0 ≡ ok a → P (f a r.1).1)
            → P (go_on f r).1
        go (ok a, s) h k = k a refl
        go (err e, s) h k = h
        go (panic, s) h k = h

  abbrev pub done : {A : Type 0} → Proxied A → Handler A
  done r s = (r, s)

  abbrev pub branch : {A : Type 0} → Bool → Handler A → Handler A → Handler A
  branch true m n = m
  branch false m n = n

  -- `metrics.write()` with a change of one counter
  unfoldable pub count_check : AppState → AppState
  count_check s = record s {
    metrics = record s.metrics { checks_total = bump s.metrics.checks_total };
  }

  unfoldable pub count_deny : AppState → AppState
  count_deny s = record s {
    metrics = record s.metrics { denies_total = bump s.metrics.denies_total };
  }

  unfoldable pub count_allow : AppState → AppState
  count_allow s = record s {
    metrics = record s.metrics { allows_total = bump s.metrics.allows_total };
  }

  unfoldable pub count_upstream : AppState → AppState
  count_upstream s = record s {
    metrics = record s.metrics { upstream_calls = bump s.metrics.upstream_calls };
  }

  -- `st.engine.check(&req)`, with the engine's own state
  unfoldable pub ask : World → AuthzRequest → Handler AuthzDecision
  ask w req s =
      let (r, after) = check kernel (w.stamp s.drawn) (w.latency s.drawn) req s.engine in
      (r, record s { engine = after; drawn = suc s.drawn })

  -- `resolve_principal(&headers, &st.cfg, &st.jwt, &st.identity_cache)`
  unfoldable pub who : JwtLib → World → Headers → Handler Principal
  who lib w headers s =
      let (r, after) = resolve_principal lib (w.now s.drawn) headers s.cfg s.jwt s.identity_cache in
      (r, record s { identity_cache = after; drawn = suc s.drawn })
