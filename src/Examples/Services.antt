-- ===== src/Examples/Services.antt =====
-- Tests of the small gateway in crates/authz-gateway/src/main.rs, of the start in
-- crates/authz-llm-proxy/src/main.rs, and of assertions in crates/authz-identity/src/idp.rs.
use Prim.Native.Nat.{ℕ}
use paac.Prelude.{
  String, Bool, true, false, Option, none, some, List, [], ◌∷◌, Result, ok, err, str_eq, ◌≡◌, ◌≢◌,
  ◌⊎◌, refl, if◌then◌else◌,
}
use paac.Core.Decision.{AuthzDecision}
use paac.Policy.Store.{Disk, empty_disk}
use paac.Service.{AppState, app_new, explain, check}
use paac.Service.Laws.{answered, started, Refusal, IsRecorded, check-IsRefused, explain-IsRecorded}
use paac.Proxy.Config.{ProxyConfig, production}
use paac.Proxy.Engine.{Startup}
use paac.Proxy.State as State
use paac.Proxy.Startup.{StartError, start}
use paac.Proxy.Startup.Laws.{IsGuarded, start-IsGuarded}
use paac.Identity.Saml.{extract_xml_attribute_value}
use paac.Identity.Saml.Laws.{HasAttribute, extract_xml_attribute_value-HasAttribute}
use paac.Examples.Toy.{kernel, crypto, stamp, request, catalog}
use paac.Examples.Policies.{no_revision, no_bundle}
use paac.Examples.Reports.{format}
use paac.Examples.World.{state}

abbrev in_force : Disk
in_force = record empty_disk {
  deployed = some (record no_revision {
    revision = "r1";
    cedar = "permit();";
    bundle = some (record no_bundle { key_id = "key-1"; signature_b64 = "c2lnbmF0dXJlIG9mIHIx" });
  });
}

abbrev service : AppState
service = app_new in_force []

abbrev no_decision : Result (ℕ × String) AuthzDecision → AuthzDecision → AuthzDecision
no_decision (ok d) e = d
no_decision _ e = e

abbrev given : AuthzDecision
given = no_decision (check kernel "" format stamp request service).0 paac.Examples.Toy.decision

abbrev empty_service : AppState
empty_service = app_new empty_disk []

refused :
    (check kernel "" format stamp request empty_service).0
    ≡ err (503, "store error: no deployed policy bundle")
unfolding check paac.Policy.Store.policy_set_from_deployed paac.Policy.Store.load_deployed app_new
    paac.Proxy.Error.show_policy paac.Prelude.◌^^◌
refused = refl

check-IsRefused_example :
    ((check kernel "" format stamp request empty_service).1 ≡ empty_service)
    × Refusal kernel "" format stamp request empty_disk
        (503, "store error: no deployed policy bundle")
unfolding app_new
check-IsRefused_example =
    check-IsRefused kernel "" format stamp request (503, "store error: no deployed policy bundle")
      empty_service refused

abbrev after_check : AppState
after_check = (check kernel "" format stamp request service).1

explained : explain "decision-1" after_check ≡ ok given
unfolding check paac.Service.app_new explain paac.Policy.Store.policy_set_from_deployed
    paac.Policy.Store.load_deployed paac.Core.Evaluate.evaluate paac.Core.Evaluate.prepare
    paac.Core.Evaluate.decide paac.Core.Request.validate paac.Prelude.trim
    paac.Core.Request.with_roles paac.Core.Request.action_new paac.Core.Request.resource_of_kind
    paac.Core.Entities.build_entities paac.Core.Entities.add_relationships
    paac.Core.Entities.add_groups paac.Core.Entities.principal_entity paac.Core.Entities.set_attr
    paac.Core.Entities.add_attrs paac.Prelude.lookup paac.Core.Entities.uid
    paac.Core.Entities.add_parents paac.Core.Entities.subject_entities
    paac.Core.Entities.resource_entity paac.Core.Entities.group_entities
    paac.Core.Entities.all_groups paac.Core.Evaluate.uid paac.Prelude.to_ascii_uppercase
    paac.Core.Evaluate.determining paac.Core.Evaluate.effect_from_cedar paac.Prelude.insert
explained = refl

explain-IsRecorded_example : IsRecorded kernel "" format after_check.audit "decision-1" given
explain-IsRecorded_example =
    explain-IsRecorded kernel "" format after_check "decision-1" given
      (answered stamp request (started in_force [])) explained

-- The environment asks for production and gives the secret of the tokens.
abbrev env : String → Option String
env name =
    if str_eq name "PAAC_MODE"
    then some "production"
    else if str_eq name "PAAC_JWT_SECRET"
    then some "secret"
    else none

abbrev found : Startup
found = record { disk = in_force; key_file = none; catalog = some catalog; sqlite = none }

abbrev started_or :
    State.AppState kernel → Result StartError (State.AppState kernel) → State.AppState kernel
started_or s (ok t) = t
started_or s _ = s

abbrev gateway : State.AppState kernel
gateway = started_or state (start kernel "" crypto 1 env none none found)

starts : start kernel "" crypto 1 env none none found ≡ ok gateway
unfolding start paac.Proxy.Engine.from_config paac.Policy.Store.policy_set_from_deployed
    paac.Policy.Store.load_deployed paac.Proxy.Config.apply_env paac.Prelude.to_ascii_lowercase
starts = refl

in_production : gateway.cfg.mode ≡ production
unfolding start paac.Proxy.Engine.from_config paac.Policy.Store.policy_set_from_deployed
    paac.Policy.Store.load_deployed paac.Proxy.Config.apply_env paac.Prelude.to_ascii_lowercase
    State.app_new
in_production = refl

start-IsGuarded_example : IsGuarded kernel "" crypto 1 gateway
start-IsGuarded_example =
    start-IsGuarded kernel "" crypto 1 env none none found gateway starts in_production

-- An attribute without a value, before one with a value.
abbrev assertion : String
assertion =
    "<saml2:Attribute Name=\"roles\"/><saml2:Attribute Name=\"groups\"><saml2:AttributeValue> HR </saml2:AttributeValue></saml2:Attribute>"

taken : extract_xml_attribute_value assertion "roles" ≡ some "HR"
unfolding extract_xml_attribute_value paac.Prelude.split_at paac.Prelude.strip_prefix
    paac.Prelude.◌^^◌ paac.Prelude.trim
taken = refl

extract_xml_attribute_value-HasAttribute_example : HasAttribute assertion "roles" "HR"
extract_xml_attribute_value-HasAttribute_example =
    extract_xml_attribute_value-HasAttribute assertion "roles" "HR" taken
