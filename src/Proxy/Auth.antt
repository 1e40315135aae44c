-- ===== src/Proxy/Auth.antt =====
-- crates/authz-llm-proxy/src/auth.rs: the principal of a request, from its headers. The identity
-- cache is the state. A header that is not ASCII text counts as absent, as `to_str` makes it.
pub mod Laws
use Prim.Native.Nat.{ℕ, zero, suc}
use paac.Prelude.{
  String, ◌^^◌, Bool, true, false, not, ◌&&◌, ◌||◌, Option, none, some, List, [], ◌∷◌, map, Result,
  ok, err, panic, map_err, keep, is_none, is_empty, trim, split_by, is_char, strip_prefix,
  if◌then◌else◌,
}
use paac.Core.Request.{Principal, with_roles}
use paac.Identity.Model.{CanonicalIdentity, Identified}
use paac.Identity.Cache.{IdentityCache, get, put}
use paac.Identity.Jwt.{JwtLib, JwtOidcAdapter, normalize, normalize_unverified}
use paac.Proxy.Error.{ProxyError, Proxied, unauthorized, show_identity}
use paac.Proxy.Config.{ProxyConfig, is_production, or_keep}

-- `headers.get(name)` with `to_str`
abbrev pub Headers : Type 0
Headers = String → Option String

unfoldable pub identity_to_principal : CanonicalIdentity → Principal
identity_to_principal id = record {
  id = id.id;
  roles = id.roles;
  groups = id.groups;
  attrs = id.attrs;
}

-- The first characters of an ASCII text.
unfoldable pub take : ℕ → String → String
take zero s = String.[]
take (suc n) String.[] = String.[]
take (suc n) (String.◌∷◌ c s) = String.◌∷◌ c (take n s)

-- the key of a token in the cache
unfoldable pub cache_key : String → String
unfolding take
cache_key token = "jwt:" ^^ take 32 token

-- `auth.strip_prefix("Bearer ").or_else(|| auth.strip_prefix("bearer "))`
unfoldable pub bearer : String → Option String
bearer auth = elim (strip_prefix "Bearer " auth) [
  | some token ↦ some token
  | none ↦ strip_prefix "bearer " auth
]

unfoldable pub bearer_token : Headers → Option String
unfolding bearer
bearer_token headers = elim (headers "authorization") [ none ↦ none | some auth ↦ bearer auth ]

-- When a token has to be verified.
unfoldable pub must_verify : ProxyConfig → Bool
must_verify cfg =
    is_production cfg.mode
    || (not (is_none cfg.identity.jwt_hmac_secret) || not (is_none cfg.identity.jwks_url))

unfoldable pub split_roles : String → List String
split_roles s = keep (λ r. not (is_empty r)) (map trim (split_by (is_char b',') s))

unfoldable pub roles_of : Option String → List String
unfolding split_roles
roles_of none = []
roles_of (some s) = split_roles s

-- The second part: the headers that anybody can set.
unfoldable pub header_principal : Headers → ProxyConfig → Option Principal
unfolding roles_of
header_principal headers cfg =
    if cfg.identity.allow_header_identity && not (is_production cfg.mode)
    then elim (headers "x-paac-user") [
      | none ↦ none
      | some user ↦ some (with_roles user (roles_of (headers "x-paac-roles")))
    ]
    else none

abbrev pub missing : Bool → String
missing true = "identity required (Authorization Bearer JWT)"
missing false = "missing identity: provide Authorization Bearer JWT or X-PAAC-User (dev)"

abbrev pub or_missing : Bool → Option Principal → Proxied Principal
or_missing prod none = err (unauthorized (missing prod))
or_missing prod (some p) = ok p

module _ (lib : JwtLib) where
  -- An identity made of a token, verified where it has to be.
  unfoldable pub identify : ProxyConfig → JwtOidcAdapter → String → Identified CanonicalIdentity
  identify cfg jwt token =
      if must_verify cfg then normalize lib jwt token else normalize_unverified lib token

  -- what is done with the identity: it goes to the cache under the key
  unfoldable pub remember :
      ℕ → String → IdentityCache → Proxied CanonicalIdentity → Proxied Principal × IdentityCache
  remember now key cache (ok id) = (ok (identity_to_principal id), put now key id id.source cache)
  remember now key cache (err e) = (err e, cache)
  remember now key cache panic = (panic, cache)

  unfoldable pub resolve_token :
      ℕ → ProxyConfig → JwtOidcAdapter → String → IdentityCache → Proxied Principal × IdentityCache
  unfolding remember
  resolve_token now cfg jwt token cache = elim (get now (cache_key token) cache) [
    | some id ↦ (ok (identity_to_principal id), cache)
    | none ↦
        remember now (cache_key token) cache
          (map_err (λ e. unauthorized (show_identity e)) (identify cfg jwt token))
  ]

  unfoldable pub resolve_principal :
      ℕ → Headers → ProxyConfig → JwtOidcAdapter → IdentityCache → Proxied Principal × IdentityCache
  resolve_principal now headers cfg jwt cache = elim (bearer_token headers) [
    | some token ↦ resolve_token now cfg jwt token cache
    | none ↦ (or_missing (is_production cfg.mode) (header_principal headers cfg), cache)
  ]
