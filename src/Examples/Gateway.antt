-- ===== src/Examples/Gateway.antt =====
-- Tests of the gateway in crates/authz-llm-proxy/src.
use Prim.Native.Nat.{ℕ, ◌-◌, ◌≤◌}
use paac.Prelude.{
  String, ◌^^◌, Bool, true, false, ◌≡◌, ◌≢◌, ◌↔◌, ◌⊎◌, refl, ap, arith, Option, none, some, List,
  [], ◌∷◌, Result, ok, err, panic, str_eq, if◌then◌else◌,
}
use paac.Core.Request.{Principal, AuthzRequest}
use paac.Core.Evaluate.{evaluate}
use paac.Core.HotCache.{load, to_evaluator_config}
use paac.Json.{Json}
use paac.Policy.Sign.{SignedBundle}
use paac.Policy.Store.{PolicyRevision, Disk, empty_disk}
use paac.Store.{get_evidence, flush, empty_store}
use paac.Identity.Model.{CanonicalIdentity}
use paac.Identity.Cache.{get}
use paac.Proxy.Error.{ProxyError, Proxied, bad_request, not_ready}
use paac.Proxy.Config.{ProxyConfig, development, apply_env, load as load_config}
use paac.Proxy.Config.Laws.{IsSafe, load-IsSafe}
use paac.Proxy.Auth.{
  bearer_token, cache_key, identify, identity_to_principal, resolve_token, resolve_principal,
}
use paac.Proxy.Auth.Laws.{
  IsVerified, IsProven, resolve_principal-production, resolve_principal-IsVerified,
  resolve_token_shared,
}
use paac.Proxy.Engine.{Startup, AuthzEngine, is_unsigned, answer, check, from_config, on_some}
use paac.Proxy.Engine.Laws.{IsAudited, check-ok, check-get_evidence}
use paac.Proxy.Engine.Start.{IsCovered, from_config-IsCovered}
use paac.Proxy.Routes.{filter_tool_calls, chat_completions}
use paac.Proxy.Routes.Allowed.{IsFiltered, calls_of, filter_tool_calls-IsFiltered}
use paac.Proxy.Routes.Connector.{IsConnected, chat_completions-IsConnected}
use paac.Proxy.Routes.Laws.{IsGuarded, chat_completions-IsGuarded}
use paac.Proxy.Handlers.{mcp_tools_call}
use paac.Proxy.Handlers.Laws.{IsGuardedCall, mcp_tools_call-IsGuardedCall}
use paac.Examples.Toy.{kernel, crypto, native, stamp, alice, request, catalog, decision, evaluated}
use paac.Examples.World.{
  genuine, forged, jwt_lib, config, adapter, headers, cache, alice_identity, hot, engine, world,
  state, chat, query, query_call, calls,
}

chat_completions-IsGuarded_example :
    IsGuarded kernel world native jwt_lib headers chat state
      (chat_completions kernel world native jwt_lib headers chat state).1
chat_completions-IsGuarded_example =
    chat_completions-IsGuarded kernel world native jwt_lib headers chat state

mcp_tools_call-IsGuardedCall_example :
    IsGuardedCall kernel world jwt_lib headers query state
      (mcp_tools_call kernel world jwt_lib headers query state).1
mcp_tools_call-IsGuardedCall_example =
    mcp_tools_call-IsGuardedCall kernel world jwt_lib headers query state

filter_tool_calls-calls :
    (filter_tool_calls kernel world alice calls state).0 ≡ ok (query_call ∷ [])
unfolding filter_tool_calls paac.Json.as_array paac.Proxy.State.and_then paac.Proxy.Routes.asked
    paac.Proxy.State.ask check paac.Proxy.State.count_check load evaluate paac.Core.Evaluate.prepare
    paac.Core.Request.validate paac.Prelude.trim paac.Catalog.authz_for_tool paac.Catalog.find_tool
    paac.Json.get paac.Json.as_str paac.Core.Request.action_new paac.Core.Entities.build_entities
    paac.Core.Entities.add_relationships paac.Core.Entities.add_groups to_evaluator_config
    paac.Core.Entities.principal_entity paac.Core.Entities.set_attr paac.Core.Entities.add_attrs
    paac.Prelude.lookup paac.Core.Entities.uid paac.Core.Entities.add_parents
    paac.Core.Entities.subject_entities paac.Core.Entities.resource_entity paac.Catalog.resource_arg
    paac.Core.Entities.group_entities paac.Core.Entities.all_groups paac.Core.Evaluate.uid
    paac.Core.Evaluate.decide paac.Core.Evaluate.effect_from_cedar paac.Prelude.to_ascii_uppercase
    paac.Proxy.Routes.let_through
filter_tool_calls-calls = refl

filter_tool_calls-IsFiltered_example :
    IsFiltered kernel world alice catalog engine.bundle (calls_of calls) (query_call ∷ [])
filter_tool_calls-IsFiltered_example =
    filter_tool_calls-IsFiltered kernel world alice catalog engine.bundle calls state
      (query_call ∷ []) refl refl filter_tool_calls-calls

chat_completions-IsConnected_example :
    IsConnected kernel world native jwt_lib headers state
      (chat_completions kernel world native jwt_lib headers chat state).1
chat_completions-IsConnected_example =
    chat_completions-IsConnected kernel world native jwt_lib headers chat state

-- The empty cache has nothing that was not verified.
none_found : (now : ℕ) (k : String) (id : CanonicalIdentity) → get now k cache ≡ some id → ⊥
unfolding get paac.Prelude.lookup
none_found now k id found = cc

cache-IsVerified : IsVerified jwt_lib adapter cache
cache-IsVerified = record { verified = λ now k id found. absurd (none_found now k id found) }

resolved : (resolve_principal jwt_lib 0 headers config adapter cache).0 ≡ ok alice
unfolding resolve_principal bearer_token paac.Prelude.strip_prefix ◌^^◌ resolve_token get
    paac.Prelude.lookup identify paac.Proxy.Auth.must_verify paac.Identity.Jwt.normalize
    paac.Identity.Jwt.normalize_hs256 identity_to_principal paac.Identity.Jwt.claims_to_identity
resolved = refl

resolve_principal-production_example :
    (token : String) × (bearer_token headers ≡ some token) × IsProven jwt_lib adapter token alice
resolve_principal-production_example =
    resolve_principal-production jwt_lib adapter config refl 0 headers cache alice cache-IsVerified
      resolved

resolve_principal-IsVerified_example :
    IsVerified jwt_lib adapter (resolve_principal jwt_lib 0 headers config adapter cache).1
resolve_principal-IsVerified_example =
    resolve_principal-IsVerified jwt_lib adapter config refl 0 headers cache cache-IsVerified

same_key : cache_key forged ≡ cache_key genuine
unfolding cache_key
same_key = refl

not_cached : get 0 (cache_key genuine) cache ≡ none
unfolding get paac.Prelude.lookup
not_cached = refl

identified : identify jwt_lib config adapter genuine ≡ ok alice_identity
unfolding identify paac.Proxy.Auth.must_verify paac.Identity.Jwt.normalize
    paac.Identity.Jwt.normalize_hs256 paac.Identity.Jwt.claims_to_identity
identified = refl

still_fresh : 200 - 0 ≤ cache.ttl
still_fresh = omega arith

resolve_token_shared_example :
    (resolve_token jwt_lib 200 config adapter forged
      (resolve_token jwt_lib 0 config adapter genuine cache).1).0
    ≡ ok (identity_to_principal alice_identity)
resolve_token_shared_example =
    resolve_token_shared jwt_lib adapter config 0 200 genuine forged cache alice_identity same_key
      not_cached identified still_fresh

checked : (check kernel stamp 3 request engine).0 ≡ ok decision
unfolding check load to_evaluator_config is_unsigned answer
checked = ap (λ r. (answer kernel 3 engine r).0) evaluated

check-ok_example :
    ((engine.require_signed ≡ false)
      ⊎ ((key : String) × ((load kernel engine.bundle).policy_signature ≡ some key)))
    × (evaluate kernel stamp request (to_evaluator_config kernel (load kernel engine.bundle))
        ≡ ok decision)
    × IsAudited kernel stamp 3 request engine decision (check kernel stamp 3 request engine).1
check-ok_example = check-ok kernel stamp 3 request engine decision checked

abbrev nobody : AuthzRequest
nobody = record request { principal = record alice { id = "" } }

refused :
    (check kernel stamp 3 nobody engine).0
    ≡ err (bad_request "invalid request: principal.id is required")
unfolding check load evaluate paac.Core.Evaluate.prepare paac.Core.Request.validate
    paac.Prelude.trim paac.Proxy.Error.show_authz ◌^^◌
refused = refl

abbrev unsigned : AuthzEngine kernel
unsigned = record engine { bundle = record { inner = record hot { policy_signature = none } } }

check-get_evidence_example :
    on_some
      (λ t. get_evidence decision.evidence.decision_id (flush t))
      (check kernel stamp 3 request engine).1.store
    ≡ some (some decision)
check-get_evidence_example =
    check-get_evidence kernel stamp 3 request engine decision empty_store refl checked

-- An environment that asks for the production mode, and a file that allows what it must not.
abbrev env : String → Option String
env name = if str_eq name "PAAC_MODE" then some "Prod" else none

abbrev raw : ProxyConfig
raw = record config {
  mode = development;
  require_signed_bundle = false;
  identity = record config.identity { allow_header_identity = true };
}

loaded : load_config env (ok raw) ≡ ok (apply_env env raw)
unfolding load_config paac.Prelude.trim paac.Prelude.to_ascii_lowercase
loaded = refl

load-IsSafe_example : IsSafe (apply_env env raw)
load-IsSafe_example = load-IsSafe env (ok raw) (apply_env env raw) loaded

abbrev bundle : SignedBundle
bundle = record {
  revision = "r1";
  content_sha256 = "digest of permit();";
  cedar = "permit();";
  dsl = "";
  signature_b64 = "signature";
  key_id = "key-1";
  signed_at = "";
}

abbrev deployed : PolicyRevision
deployed = record {
  revision = "r1";
  message = "";
  created_at = "";
  cedar = "permit();";
  dsl = "";
  bundle = some bundle;
}

abbrev startup : Startup
startup = record {
  disk = record empty_disk { deployed = some deployed };
  key_file = none;
  catalog = none;
  sqlite = none;
}

abbrev started : AuthzEngine kernel
started = elim (from_config kernel "" crypto config startup) [
  | ok e ↦ e
  | err x ↦ unsigned
  | panic ↦ unsigned
]

from_config-started : from_config kernel "" crypto config startup ≡ ok started
unfolding from_config paac.Policy.Store.policy_set_from_deployed paac.Policy.Store.load_deployed
from_config-started = refl

from_config-IsCovered_example : IsCovered kernel "" crypto config startup started
from_config-IsCovered_example =
    from_config-IsCovered kernel "" crypto config startup started from_config-started
