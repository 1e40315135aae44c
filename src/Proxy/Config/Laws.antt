-- ===== src/Proxy/Config/Laws.antt =====
-- What `load` of crates/authz-llm-proxy/src/config.rs guarantees of the settings it returns.
use paac.Prelude.{
  String, true, false, ◌≡◌, ◌≢◌, ◌⊎◌, Option, none, Result, ok, >>=-eq-ok, ok-injective, subst,
  is_empty, trim, arith,
}
use paac.Proxy.Config.{production, ProxyConfig, apply_env, validate, load}

-- Settings that are safe to run with.
pub record IsSafe (c : ProxyConfig) : Type 0 where
  pub upstream_given : is_empty (trim c.upstream.base_url) ≡ false
  pub signed : c.mode ≡ production → c.require_signed_bundle ≡ true
  pub no_headers : c.mode ≡ production → c.identity.allow_header_identity ≡ false
  pub verifiable :
      c.mode ≡ production → (c.identity.jwt_hmac_secret ≢ none) ⊎ (c.identity.jwks_url ≢ none)

apply_env-IsSafe :
    (env : String → Option String) (raw : ProxyConfig)
    → validate (apply_env env raw) ≡ ok tt
    → IsSafe (apply_env env raw)
unfolding apply_env validate
apply_env-IsSafe env raw h = record {
  upstream_given = ground arith;
  signed = λ m. ground arith;
  no_headers = λ m. ground arith;
  verifiable = λ m. ground arith;
}

-- Settings that `load` returns are safe: an upstream is given, and in production a signed bundle is
-- required, the identity headers are off and a token can be verified, whatever the file and the
-- environment say.
pub load-IsSafe :
    (env : String → Option String) (parsed : Result String ProxyConfig) (c : ProxyConfig)
    → load env parsed ≡ ok c
    → IsSafe c
unfolding load
load-IsSafe env parsed c h =
    let (raw, _, checked) = >>=-eq-ok parsed _ h in
    let (_, valid, made) = >>=-eq-ok (validate (apply_env env raw)) _ checked in
    subst IsSafe (ok-injective made) (apply_env-IsSafe env raw valid)
