-- ===== src/Proxy/Error.antt =====
-- crates/authz-llm-proxy/src/error.rs. The body of `forbidden` is the decision whose JSON it holds.
use Prim.Native.Nat.{ℕ}
use paac.Prelude.{String, ◌^^◌, Result}
use paac.Core.Error.{AuthzError, invalid_request, policy, cedar, entity}
use paac.Core.Decision.{AuthzDecision}
use paac.Policy.Error as PolicyErrors
use paac.Policy.Error.{PolicyError}
use paac.Identity.Model.{IdentityError, msg, io, jwt}
use paac.Bridge.{BridgeError, authz}

pub data ProxyError : Type 0 where
  unauthorized : String → ProxyError
  forbidden : String → String → AuthzDecision → ProxyError
  bad_request upstream internal not_ready : String → ProxyError

abbrev pub Proxied : Type 0 → Type 0
Proxied A = Result ProxyError A

-- The status code of `into_response`.
unfoldable pub status : ProxyError → ℕ
status (unauthorized m) = 401
status (forbidden m id body) = 403
status (bad_request m) = 400
status (upstream m) = 502
status (internal m) = 500
status (not_ready m) = 503

-- `to_string` of the errors of the other crates
unfoldable pub show_authz : AuthzError → String
show_authz (invalid_request m) = "invalid request: " ^^ m
show_authz (policy m) = "policy error: " ^^ m
show_authz (cedar m) = "cedar error: " ^^ m
show_authz (entity m) = "entity error: " ^^ m

unfoldable pub show_policy : PolicyError → String
show_policy (PolicyErrors.parse m) = "parse error: " ^^ m
show_policy (PolicyErrors.validation m) = "validation error: " ^^ m
show_policy (PolicyErrors.store m) = "store error: " ^^ m
show_policy (PolicyErrors.crypto m) = "crypto error: " ^^ m
show_policy (PolicyErrors.cedar m) = "cedar error: " ^^ m
show_policy (PolicyErrors.io m) = m

unfoldable pub show_identity : IdentityError → String
show_identity (msg m) = "identity error: " ^^ m
show_identity (io m) = m
show_identity (jwt m) = "jwt error: " ^^ m

unfoldable pub show_bridge : BridgeError → String
unfolding show_authz
show_bridge (BridgeError.msg m) = "bridge error: " ^^ m
show_bridge (authz e) = show_authz e
