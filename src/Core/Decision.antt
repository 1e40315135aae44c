-- ===== src/Core/Decision.antt =====
-- crates/authz-core/src/decision.rs
use paac.Prelude.{String, Option, none, List, [], ◌∷◌, Bool, true, false}
use paac.Core.Request.{AuthzRequest}

pub data DecisionEffect : Type 0 where
  allow deny review : DecisionEffect

-- `effect == DecisionEffect::Allow`
abbrev pub is_allow : DecisionEffect → Bool
is_allow allow = true
is_allow deny = false
is_allow review = false

abbrev pub is_deny : DecisionEffect → Bool
is_deny allow = false
is_deny deny = true
is_deny review = false

pub record MatchedPolicy : Type 0 where
  pub id : String
  pub effect : DecisionEffect
  pub reason : Option String

pub record Evidence : Type 0 where
  pub decision_id : String
  pub effect : DecisionEffect
  pub request : AuthzRequest
  pub matched_policies : List MatchedPolicy
  pub determining_policy : Option MatchedPolicy
  pub policy_revision : String
  pub policy_signature : Option String
  pub engine_version : String
  pub timestamp : String
  pub notes : List String

pub record AuthzDecision : Type 0 where
  pub effect : DecisionEffect
  pub evidence : Evidence

-- The stamp of a decision: `Uuid::new_v4()` and `Utc::now()` at the call.
pub record Stamp : Type 0 where
  pub id : String
  pub now : String

abbrev pub default_note : String
default_note = "deny-by-default: no permitting policy matched"

unfoldable pub deny_default : Stamp → AuthzRequest → String → String → AuthzDecision
deny_default stamp request revision version = record {
  effect = deny;
  evidence = record {
    decision_id = stamp.id;
    effect = deny;
    request = request;
    matched_policies = [];
    determining_policy = none;
    policy_revision = revision;
    policy_signature = none;
    engine_version = version;
    timestamp = stamp.now;
    notes = default_note ∷ [];
  };
}
