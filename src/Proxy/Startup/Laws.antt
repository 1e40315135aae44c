-- ===== src/Proxy/Startup/Laws.antt =====
-- What the start of crates/authz-llm-proxy/src/main.rs guarantees of the gateway that it gives.
use Prim.Native.Nat.{ℕ}
use paac.Prelude.{
  String, true, false, Option, none, some, Result, ok, >>=-eq-ok, ok-injective, map_err,
  map_err-eq-ok, ◌≡◌, ◌≢◌, inl, inr, refl, ap, ◌∙◌, subst, arith,
}
use paac.Core.Cedar.{Cedar}
use paac.Core.HotCache.{load}
use paac.Policy.Sign.{Crypto}
use paac.Proxy.Config as Config
use paac.Proxy.Config.{production, is_production, ProxyConfig, apply_env}
use paac.Proxy.Engine.{Startup, from_config}
use paac.Proxy.Engine.Start.{from_config-IsCovered}
use paac.Proxy.State.{AppState, app_new, jwt_of}
use paac.Proxy.Startup.{settings_error, engine_error, file_settings, set_listen, settings, start}

-- Settings that are strict in production: a signed bundle, and no identity from headers.
pub record IsStrict (c : ProxyConfig) : Type 0 where
  pub signed : c.mode ≡ production → c.require_signed_bundle ≡ true
  pub no_headers : c.mode ≡ production → c.identity.allow_header_identity ≡ false

apply_env-IsStrict :
    (env : String → Option String) (raw : ProxyConfig) → IsStrict (apply_env env raw)
unfolding apply_env
apply_env-IsStrict env raw = record { signed = λ m. ground arith; no_headers = λ m. ground arith }

file_settings-IsStrict :
    (env : String → Option String) (file : Option (Result String ProxyConfig)) (c : ProxyConfig)
    → file_settings env file ≡ ok c
    → IsStrict c
unfolding file_settings Config.load
file_settings-IsStrict env (some parsed) c h =
    let (raw, _, checked) = >>=-eq-ok parsed _ h in
    let (_, valid, made) = >>=-eq-ok (Config.validate (apply_env env raw)) _ checked in
    subst IsStrict (ok-injective made) (apply_env-IsStrict env raw)
file_settings-IsStrict env none c h = subst IsStrict (ok-injective h) (apply_env-IsStrict env _)

-- The settings that the gateway starts with are strict in production, with a file and without one.
pub settings-IsStrict :
    (env : String → Option String) (file : Option (Result String ProxyConfig))
    (listen : Option String) (c : ProxyConfig)
    → settings env file listen ≡ ok c
    → IsStrict c
unfolding settings set_listen
settings-IsStrict env file listen c h =
    let (cfg, found, made) = >>=-eq-ok (file_settings env file) _ h in
    let strict = file_settings-IsStrict env file cfg found in
    subst IsStrict (ok-injective made)
      (record { signed = strict.signed; no_headers = strict.no_headers })

module _ (kernel : Cedar) (schema : String) (lib : Crypto) (second : ℕ) where
  -- A gateway that is strict in production: it serves a signed bundle, takes no identity from headers,
  -- and asks tokens for their expiry.
  pub record IsGuarded (s : AppState kernel) : Type 0 where
    pub signed : (load kernel s.engine.bundle).policy_signature ≢ none
    pub no_headers : s.cfg.identity.allow_header_identity ≡ false
    pub expiring : s.jwt.require_exp ≡ true

  -- A gateway that starts in production, whatever its file, its environment and its flags say, serves a
  -- signed bundle, takes no identity from headers, and asks tokens for their expiry.
  pub start-IsGuarded :
      (env : String → Option String) (file : Option (Result String ProxyConfig))
      (listen : Option String) (found : Startup) (s : AppState kernel)
      → start kernel schema lib second env file listen found ≡ ok s
      → s.cfg.mode ≡ production
      → IsGuarded s
  unfolding start app_new jwt_of
  start-IsGuarded env file listen found s h strict =
      let (cfg, set, more) = >>=-eq-ok (map_err settings_error (settings env file listen)) _ h in
      let (e, started, made) =
        >>=-eq-ok (map_err engine_error (from_config kernel schema lib cfg found)) _ more in
      let safe = settings-IsStrict env file listen cfg (map_err-eq-ok settings_error _ set) in
      let same : cfg ≡ s.cfg = ap (λ x. x.cfg) (ok-injective made) in
      let mode : cfg.mode ≡ production = ap (λ c. c.mode) same ∙ strict in
      let covered =
        from_config-IsCovered kernel schema lib cfg found e
          (map_err-eq-ok engine_error _ started) in
      subst IsGuarded (ok-injective made) (record {
        signed = elim covered [
          | inl signed ↦ signed
          | inr (free, _, _) ↦ absurd (cc (rw mode at free))
        ];
        no_headers = safe.no_headers mode;
        expiring = rw mode refl;
      })
