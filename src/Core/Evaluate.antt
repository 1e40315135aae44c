-- ===== src/Core/Evaluate.antt =====
-- crates/authz-core/src/evaluate.rs: a request against a Cedar policy set.
pub mod Context
pub mod Literals
pub mod Laws
use paac.Prelude.{
  String, ◌^^◌, Option, none, some, List, [], ◌∷◌, ◌++◌, map, IndexMap, Bool, ◌&&◌, ok, ◌>>=◌, ◌>>◌,
  map_err, or_else, is_nil, first, to_ascii_uppercase, if◌then◌else◌,
}
use paac.Core.Error.{AuthzError, Authz, cedar}
use paac.Core.Request.{AuthzRequest, validate}
use paac.Core.Decision.{
  DecisionEffect, allow, deny, MatchedPolicy, AuthzDecision, Stamp, default_note, is_deny,
}
use paac.Core.Cedar.{Cedar, Verdict, Response}
use paac.Core.Entities.{build_entities}
use Context.{build_context_json}

abbrev pub engine_version : String
engine_version = "0.1.0"

unfoldable pub effect_from_cedar : Verdict → DecisionEffect
effect_from_cedar Verdict.allow = allow
effect_from_cedar Verdict.deny = deny

abbrev pub by_default : MatchedPolicy
by_default = record {
  id = "deny-by-default";
  effect = deny;
  reason = some "no permit matched or explicit forbid";
}

-- `matched.first().cloned().or_else(…)`
unfoldable pub determining : List MatchedPolicy → DecisionEffect → Option MatchedPolicy
determining [] effect = if is_deny effect then some by_default else none
determining (m ∷ ms) effect = some m

module _ (engine : Cedar) where
  open engine use {
    TypeName, EntityId, PolicySet, PolicyId, Entities, Request, parse_type, parse_id, from_entities,
    context_from_json, new_request, is_authorized, policy_annotation, set_annotation,
    show_policy_id,
  }

  pub record EvaluatorConfig : Type 0 where
    pub policy_set : PolicySet
    pub policy_revision : String
    pub policy_signature : Option String
    pub group_members : IndexMap (List String)

  unfoldable pub uid : String → String → Authz (TypeName × EntityId)
  uid type_name id = do
    tn ← map_err (λ e. cedar ("type " ^^ (type_name ^^ (": " ^^ e)))) (parse_type type_name)
    eid ← map_err (λ e. cedar ("id " ^^ (id ^^ (": " ^^ e)))) (parse_id id)
    ok (tn, eid)

  -- the three-step lookup of a policy's readable name
  unfoldable pub human_id : PolicySet → PolicyId → String
  human_id set id =
      or_else (policy_annotation set id) (or_else (set_annotation set id) (show_policy_id id))

  unfoldable pub matched_policy : PolicySet → DecisionEffect → PolicyId → MatchedPolicy
  matched_policy set effect id = record {
    id = human_id set id;
    effect = effect;
    reason = some "matched by Cedar evaluator";
  }

  -- What is handed to the authorizer: the entities and the request.
  unfoldable pub prepare : AuthzRequest → EvaluatorConfig → Authz (Request × Entities)
  prepare req cfg = do
    validate req
    set ← build_entities engine req cfg.group_members
    entities ← map_err cedar (from_entities set)
    p ← uid "User" req.principal.id
    a ← uid "Action" (to_ascii_uppercase req.action.name)
    r ← uid "Resource" (or_else req.resource.id req.resource.kind)
    ctx ← map_err (λ e. cedar ("context: " ^^ e)) (context_from_json (build_context_json req))
    q ← map_err cedar (new_request p a r ctx)
    ok (q, entities)

  -- The decision that is made of the authorizer's response.
  unfoldable pub decide : Stamp → AuthzRequest → EvaluatorConfig → Response PolicyId → AuthzDecision
  decide stamp req cfg response =
      let effect = effect_from_cedar response.decision in
      let matched = map (matched_policy cfg.policy_set effect) response.reason in
      let diagnostics = map (λ e. "cedar diagnostic: " ^^ e) response.errors in
      record {
        effect = effect;
        evidence = record {
          decision_id = stamp.id;
          effect = effect;
          request = req;
          matched_policies = matched;
          determining_policy = determining matched effect;
          policy_revision = cfg.policy_revision;
          policy_signature = cfg.policy_signature;
          engine_version = engine_version;
          timestamp = stamp.now;
          notes =
              if is_nil matched && is_deny effect
              then diagnostics ++ default_note ∷ []
              else diagnostics;
        };
      }

  unfoldable pub evaluate : Stamp → AuthzRequest → EvaluatorConfig → Authz AuthzDecision
  evaluate stamp req cfg = do
    (q, entities) ← prepare req cfg
    ok (decide stamp req cfg (is_authorized q cfg.policy_set entities))
