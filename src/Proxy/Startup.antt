-- ===== src/Proxy/Startup.antt =====
-- crates/authz-llm-proxy/src/main.rs: the settings that the gateway starts with, and its first state.
pub mod Laws
use Prim.Native.Nat.{ℕ}
use paac.Prelude.{String, false, Option, none, some, Result, ok, ◌>>=◌, map_err}
use paac.Core.Cedar.{Cedar}
use paac.Policy.Sign.{Crypto}
use paac.Proxy.Error.{ProxyError}
use paac.Proxy.Config.{
  development, ProxyConfig, IdentityConfig, ConnectorsConfig, apply_env, load, or_keep,
}
use paac.Proxy.Engine.{Startup, from_config}
use paac.Proxy.State.{AppState, app_new}

-- What ends the start: the settings, or the engine.
pub data StartError : Type 0 where
  settings_error : String → StartError
  engine_error : ProxyError → StartError

-- `Default::default()` of the sections, which is not what `serde` takes for a field that is missing.
abbrev pub default_identity : IdentityConfig
default_identity = record {
  jwt_hmac_secret = none;
  jwks_url = none;
  prefer_jwt_roles = false;
  allow_header_identity = false;
  ldap = none;
  cache_ttl_secs = 0;
}

abbrev pub default_connectors : ConnectorsConfig
default_connectors = record { execute_tools = false; http_base_url = none }

-- The settings without a file, before `apply_env`.
unfoldable pub default_config : (String → Option String) → ProxyConfig
default_config env = record {
  listen = "127.0.0.1:8080";
  mode = development;
  require_signed_bundle = false;
  policy_dir = "data/policies";
  catalog_path = "data/catalog/company_resources.yaml";
  audit_path = "data/audit/decisions.jsonl";
  identity_dir = "data/identity";
  upstream = record {
    base_url = or_keep (env "PAAC_UPSTREAM_URL") "http://127.0.0.1:9000";
    api_key = env "PAAC_UPSTREAM_API_KEY";
    timeout_secs = 120;
  };
  identity = default_identity;
  connectors = default_connectors;
}

-- The settings from the file, if it exists, with what `toml` makes of it; only these are validated.
unfoldable pub file_settings :
    (String → Option String) → Option (Result String ProxyConfig) → Result String ProxyConfig
unfolding default_config
file_settings env (some parsed) = load env parsed
file_settings env none = ok (apply_env env (default_config env))

-- `if let Some(l) = args.listen`
unfoldable pub set_listen : Option String → ProxyConfig → ProxyConfig
set_listen listen cfg = record cfg { listen = or_keep listen cfg.listen }

unfoldable pub settings :
    (String → Option String)
    → Option (Result String ProxyConfig)
    → Option String
    → Result String ProxyConfig
unfolding file_settings set_listen
settings env file listen = do cfg ← file_settings env file; ok (set_listen listen cfg)

module _ (kernel : Cedar) (schema : String) (lib : Crypto) (second : ℕ) where
  -- From the settings to the state that the routes share; `found` is what is read from the disk.
  unfoldable pub start :
      (String → Option String)
      → Option (Result String ProxyConfig)
      → Option String
      → Startup
      → Result StartError (AppState kernel)
  unfolding settings
  start env file listen found = do
    cfg ← map_err settings_error (settings env file listen)
    engine ← map_err engine_error (from_config kernel schema lib cfg found)
    ok (app_new kernel second cfg engine)
