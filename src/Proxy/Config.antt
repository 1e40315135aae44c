-- ===== src/Proxy/Config.antt =====
-- crates/authz-llm-proxy/src/config.rs: the settings, what the environment does to them and when
-- they are refused. Paths are texts.
pub mod Laws
use Prim.Native.Nat.{ℕ}
use paac.Prelude.{
  String, Bool, true, false, ◌&&◌, ◌||◌, Option, none, some, List, [], ◌∷◌, Result, ok, reject_if,
  ◌>>◌, ◌>>=◌, has, is_none, is_empty, trim, to_ascii_lowercase, str_eq, if◌then◌else◌,
}

pub data RunMode : Type 0 where
  development production : RunMode

abbrev pub is_production : RunMode → Bool
is_production production = true
is_production development = false

pub record UpstreamConfig : Type 0 where
  pub base_url : String
  pub api_key : Option String
  pub timeout_secs : ℕ

pub record LdapSection : Type 0 where
  pub url : String
  pub bind_dn : String
  pub bind_password : String
  pub base_dn : String
  pub mock : Bool

pub record IdentityConfig : Type 0 where
  pub jwt_hmac_secret : Option String
  pub jwks_url : Option String
  pub prefer_jwt_roles : Bool
  pub allow_header_identity : Bool
  pub ldap : Option LdapSection
  pub cache_ttl_secs : ℕ

pub record ConnectorsConfig : Type 0 where
  pub execute_tools : Bool
  pub http_base_url : Option String

pub record ProxyConfig : Type 0 where
  pub listen : String
  pub mode : RunMode
  pub require_signed_bundle : Bool
  pub policy_dir : String
  pub catalog_path : String
  pub audit_path : String
  pub identity_dir : String
  pub upstream : UpstreamConfig
  pub identity : IdentityConfig
  pub connectors : ConnectorsConfig

-- `match v.to_ascii_lowercase()`
unfoldable pub read_mode : String → RunMode
read_mode v =
    let w = to_ascii_lowercase v in
    if str_eq w "production" || str_eq w "prod" then production else development

abbrev pub or_keep : {A : Type 0} → Option A → A → A
or_keep none a = a
or_keep (some b) a = b

abbrev pub some_or : {A : Type 0} → Option A → Option A → Option A
some_or none o = o
some_or (some a) o = some a

unfoldable pub set_mode : Option String → RunMode → RunMode
unfolding read_mode
set_mode none m = m
set_mode (some v) m = read_mode v

abbrev pub set_signed : Option String → Bool → Bool
set_signed none b = b
set_signed (some v) b = has ("1" ∷ ("true" ∷ ("TRUE" ∷ ("yes" ∷ [])))) v

-- `get_or_insert` of a mock section, and then its address
unfoldable pub set_ldap : Option String → Option LdapSection → Option LdapSection
set_ldap none ldap = ldap
set_ldap (some v) none =
    some (record { url = v; bind_dn = ""; bind_password = ""; base_dn = ""; mock = true })
set_ldap (some v) (some ldap) = some (record ldap { url = v })

-- The environment is a function; a variable that is not there has no value.
unfoldable pub apply_env : (String → Option String) → ProxyConfig → ProxyConfig
unfolding set_ldap set_mode
apply_env env c =
    let mode = set_mode (env "PAAC_MODE") c.mode in
    record c {
      listen = or_keep (env "PAAC_LISTEN") c.listen;
      mode = mode;
      require_signed_bundle =
          if is_production mode
          then true
          else set_signed (env "PAAC_REQUIRE_SIGNED_BUNDLE") c.require_signed_bundle;
      policy_dir = or_keep (env "PAAC_POLICY_DIR") c.policy_dir;
      audit_path = or_keep (env "PAAC_AUDIT_PATH") c.audit_path;
      upstream = record c.upstream {
        base_url = or_keep (env "PAAC_UPSTREAM_URL") c.upstream.base_url;
        api_key = some_or (env "PAAC_UPSTREAM_API_KEY") c.upstream.api_key;
      };
      identity = record c.identity {
        jwt_hmac_secret = some_or (env "PAAC_JWT_SECRET") c.identity.jwt_hmac_secret;
        jwks_url = some_or (env "PAAC_JWKS_URL") c.identity.jwks_url;
        ldap = set_ldap (env "PAAC_LDAP_URL") c.identity.ldap;
        allow_header_identity =
            if is_production mode then false else c.identity.allow_header_identity;
      };
    }

unfoldable pub validate : ProxyConfig → Result String (Unit {0})
validate c = reject_if (is_empty (trim c.upstream.base_url)) "upstream.base_url is required" (
    reject_if
      (is_production c.mode && (is_none c.identity.jwt_hmac_secret && is_none c.identity.jwks_url))
      "production mode requires jwt_hmac_secret or jwks_url"
      (reject_if (is_production c.mode && c.identity.allow_header_identity)
        "production mode rejects spoofable header identity" (ok tt)))

-- `load`, from what `toml` makes of the file.
unfoldable pub load :
    (String → Option String) → Result String ProxyConfig → Result String ProxyConfig
unfolding apply_env validate
load env parsed = do raw ← parsed; validate (apply_env env raw); ok (apply_env env raw)
