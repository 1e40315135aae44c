-- ===== src/Examples/World.antt =====
-- The instances and the data of the gateway's tests.
use paac.Prelude.{String, ◌^^◌, true, false, none, some, [], ◌∷◌, ok, err, str_eq, if◌then◌else◌}
use paac.Json.{Json, null, text, array, object, cons, nil, end, field}
use paac.Core.HotCache.{HotBundle}
use paac.Identity.Model.{CanonicalIdentity}
use paac.Identity.Cache.{IdentityCache}
use paac.Identity.Jwt.{JwtLib, JwtOidcAdapter, Claims, hs256}
use paac.Store.{empty_store}
use paac.Proxy.Config.{ProxyConfig, production}
use paac.Proxy.Auth.{Headers}
use paac.Proxy.Engine.{AuthzEngine}
use paac.Proxy.Openai.{ChatCompletionRequest}
use paac.Proxy.Agents.{McpCallParams}
use paac.Proxy.State.{World, AppState, no_metrics}
use paac.Examples.Toy.{kernel, stamp, catalog}

-- A token, and another one that begins with the same 32 characters.
abbrev pub genuine : String
genuine = "eyJhbGciOiJIUzI1NiJ9.eyJzdWIiOiJ.genuine"

abbrev pub forged : String
forged = "eyJhbGciOiJIUzI1NiJ9.eyJzdWIiOiJ.forged"

abbrev pub claims : Claims
claims = record {
  sub = "user:alice";
  name = some "Alice";
  email = none;
  roles = "ANALYST" ∷ [];
  groups = [];
}

-- Only the genuine token decodes.
abbrev pub jwt_lib : JwtLib
jwt_lib = record {
  Key = String;
  from_secret = λ s. s;
  from_rsa_components = λ n e. ok n;
  decode_header = λ t. ok (record { alg = hs256; kid = none });
  decode = λ t k v. if str_eq t genuine then ok claims else err "InvalidSignature";
  Bytes = String;
  url_safe_no_pad = λ s. ok s;
  url_safe = λ s. ok s;
  from_slice = λ b. err "expected value";
  fetch_jwks = λ url. ok [];
}

abbrev pub config : ProxyConfig
config = record {
  listen = "127.0.0.1:8080";
  mode = production;
  require_signed_bundle = true;
  policy_dir = "data/policies";
  catalog_path = "data/catalog/company_resources.yaml";
  audit_path = "data/audit/decisions.jsonl";
  identity_dir = "data/identity";
  upstream = record { base_url = "http://upstream/"; api_key = none; timeout_secs = 120 };
  identity = record {
    jwt_hmac_secret = some "secret";
    jwks_url = none;
    prefer_jwt_roles = true;
    allow_header_identity = false;
    ldap = none;
    cache_ttl_secs = 300;
  };
  connectors = record { execute_tools = true; http_base_url = none };
}

abbrev pub adapter : JwtOidcAdapter
adapter = record { hmac_secret = some "secret"; jwks_url = none; require_exp = true }

abbrev pub headers : Headers
headers name = if str_eq name "authorization" then some ("Bearer " ^^ genuine) else none

abbrev pub cache : IdentityCache
cache = record { ttl = 300; inner = [] }

abbrev pub alice_identity : CanonicalIdentity
alice_identity = record {
  id = "user:alice";
  display_name = "Alice";
  email = none;
  source = "jwt-hs256";
  roles = "ANALYST" ∷ [];
  groups = [];
  attrs = [];
}

abbrev pub hot : HotBundle kernel
hot = record {
  policy_set = "READ";
  policy_revision = "r1";
  policy_signature = some "key-1";
  signature_key_id = some "key-1";
  content_sha256 = none;
  group_members = [];
}

abbrev pub engine : AuthzEngine kernel
engine = record {
  bundle = record { inner = hot };
  catalog = catalog;
  store = some empty_store;
  require_signed = true;
  mode = production;
}

-- A call of a tool that may be used, and one of a tool that nobody knows.
abbrev pub query_call : Json
query_call = object (
    field "id" (text "call-1")
      (field "function" (object (field "name" (text "sql_query") end)) end))

abbrev pub unknown_call : Json
unknown_call = object (
    field "id" (text "call-2") (field "function" (object (field "name" (text "drop_all") end)) end))

abbrev pub calls : Json
calls = array (cons query_call (cons unknown_call nil))

-- What the upstream answers: a message with these calls.
abbrev pub reply : Json
reply = object (
    field "choices"
      (array (cons (object (field "message" (object (field "tool_calls" calls end)) end)) nil)) end)

-- No argument of a tool call can be read.
abbrev pub world : World
world = record {
  now = λ n. n;
  latency = λ n. 1;
  stamp = λ n. stamp;
  uuid = λ n. "call-1";
  parse_json = λ s. none;
  show_json = λ v. "{}";
  send = λ url key body. ok (record { status = 200; body = ok reply });
  execute = λ call. ok null;
}

abbrev pub state : AppState kernel
state = record {
  cfg = config;
  engine = engine;
  jwt = adapter;
  identity_cache = cache;
  metrics = no_metrics;
  sent = [];
  executed = [];
  drawn = 0;
}

abbrev pub chat : ChatCompletionRequest
chat = record {
  model = "m";
  messages =
      record {
        role = "user";
        content = some (text "show me the travel expenses of alice");
        tool_calls = none;
        name = none;
        tool_call_id = none;
      }
      ∷ [];
  stream = none;
  tools = none;
}

abbrev pub query : McpCallParams
query = record {
  name = "sql_query";
  arguments = object (field "table" (text "db.hr.salaries") end);
}
