-- ===== src/Core/HotCache.antt =====
-- crates/authz-core/src/hot_cache.rs and sdk.rs: the active bundle, and the embeddable engine.
use paac.Prelude.{String, Option, none, [], List, IndexMap}
use paac.Core.Error.{Authz}
use paac.Core.Request.{AuthzRequest}
use paac.Core.Decision.{AuthzDecision, Stamp}
use paac.Core.Cedar.{Cedar}
use paac.Core.Evaluate.{EvaluatorConfig, evaluate}

module _ (engine : Cedar) where
  open engine use {PolicySet}

  pub record HotBundle : Type 0 where
    pub policy_set : PolicySet
    pub policy_revision : String
    pub policy_signature : Option String
    pub signature_key_id : Option String
    pub content_sha256 : Option String
    pub group_members : IndexMap (List String)

  unfoldable pub to_evaluator_config : HotBundle → EvaluatorConfig engine
  to_evaluator_config b = record {
    policy_set = b.policy_set;
    policy_revision = b.policy_revision;
    policy_signature = b.policy_signature;
    group_members = b.group_members;
  }

  -- The cell that `ArcSwap` swaps whole: a load sees the last bundle stored.
  pub record BundleCache : Type 0 where
    pub inner : HotBundle

  unfoldable pub cache_new : HotBundle → BundleCache
  cache_new bundle = record { inner = bundle }

  unfoldable pub load : BundleCache → HotBundle
  load c = c.inner

  unfoldable pub store : HotBundle → BundleCache → BundleCache
  store bundle c = record c { inner = bundle }

  unfoldable pub evaluator_config : BundleCache → EvaluatorConfig engine
  unfolding load to_evaluator_config
  evaluator_config c = to_evaluator_config (load c)

  pub record PaacEngine : Type 0 where
    pub config : EvaluatorConfig engine

  unfoldable pub engine_new : PolicySet → String → PaacEngine
  engine_new set revision = record {
    config = record {
      policy_set = set;
      policy_revision = revision;
      policy_signature = none;
      group_members = [];
    };
  }

  unfoldable pub engine_evaluate : Stamp → AuthzRequest → PaacEngine → Authz AuthzDecision
  engine_evaluate stamp req e = evaluate engine stamp req e.config
