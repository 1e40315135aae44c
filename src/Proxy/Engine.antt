-- ===== src/Proxy/Engine.antt =====
-- crates/authz-llm-proxy/src/engine.rs: the decision engine of the gateway, over the hot bundle, the
-- catalog and the audit store, which is its state.
pub mod Laws
pub mod Start
use Prim.Native.Nat.{ℕ}
use paac.Prelude.{
  String, ◌^^◌, Bool, true, false, ◌&&◌, ◌||◌, Option, none, some, List, [], Result, ok, err, panic,
  ok_or, map_err, ◌>>=◌, ◌>>◌, or_else, is_none, if◌then◌else◌, reject_if,
}
use paac.Core.Error.{Authz}
use paac.Core.Request.{AuthzRequest}
use paac.Core.Decision.{AuthzDecision, Stamp, is_allow}
use paac.Core.Cedar.{Cedar}
use paac.Core.Evaluate.{EvaluatorConfig, evaluate}
use paac.Core.HotCache.{HotBundle, BundleCache, cache_new, load, to_evaluator_config}
use paac.Policy.Sign.{
  Crypto, SigningKeyPair, SignedBundle, BundleSigner, from_keypair, verify_bundle,
}
use paac.Policy.Error.{PolicyError, Fallible}
use paac.Policy.Translate.{cedar_policy_set_from_dsl}
use paac.Policy.Store.{
  PolicyRevision, Disk, read_active_dsl, validate_dsl, policy_set_from_deployed,
}
use paac.Catalog.{ResourceCatalog}
use paac.Store.{PaacStore, RevisionRow, enqueue_audit, upsert_policy_revision}
use paac.Proxy.Error.{
  ProxyError, Proxied, forbidden, bad_request, internal, not_ready, show_authz, show_policy,
}
use paac.Proxy.Config.{RunMode, ProxyConfig, is_production}

-- What is read at the start: the policy directory, the local key file if it can be read and parsed,
-- the catalog file if it loads, and the database, if one is asked for, with what opening it gives.
pub record Startup : Type 0 where
  pub disk : Disk
  pub key_file : Option SigningKeyPair
  pub catalog : Option ResourceCatalog
  pub sqlite : Option (Result String PaacStore)

abbrev pub empty_catalog : ResourceCatalog
empty_catalog = record { version = ""; resources = []; tools = [] }

-- `sqlite_path.and_then(|p| PaacStore::open(p).ok())`
unfoldable pub optional_store : Option (Result String PaacStore) → Option PaacStore
optional_store none = none
optional_store (some (ok s)) = some s
optional_store (some (err e)) = none
optional_store (some panic) = none

unfoldable pub required_store : Option (Result String PaacStore) → Proxied (Option PaacStore)
required_store none = ok none
required_store (some r) = do s ← map_err internal r; ok (some s)

-- `option.map(f)`
abbrev pub on_some : {A B : Type 0} → (A → B) → Option A → Option B
on_some f none = none
on_some f (some a) = some (f a)

abbrev pub revision_row : PolicyRevision → RevisionRow
revision_row rev = record {
  message = rev.message;
  content_sha256 = on_some (λ b. b.content_sha256) rev.bundle;
  signature_key_id = on_some (λ b. b.key_id) rev.bundle;
  signature_b64 = on_some (λ b. b.signature_b64) rev.bundle;
  dsl = rev.dsl;
  cedar = rev.cedar;
  deployed = true;
}

abbrev pub not_signed_text : String
not_signed_text = "unsigned policy bundle rejected"

module _ (lib : Crypto) where
  -- The local check with a signer's key: only an error of the check is one of the start.
  unfoldable pub check_bundle : SignedBundle → BundleSigner lib → Proxied (Unit {0})
  check_bundle bundle signer = do
    _ ←
        map_err (λ e. not_ready ("bundle signature invalid: " ^^ show_policy e))
          (verify_bundle lib bundle signer.verifying_key_bytes)
    ok tt

  -- The check with the key file; a key that is missing or no key skips it.
  unfoldable pub check_with_key : SignedBundle → Option SigningKeyPair → Proxied (Unit {0})
  unfolding check_bundle
  check_with_key bundle none = ok tt
  check_with_key bundle (some pair) = elim (from_keypair lib pair) [
    | ok signer ↦ check_bundle bundle signer
    | err e ↦ ok tt
    | panic ↦ panic
  ]

  -- What is asked of the deployed revision when a signature is required.
  unfoldable pub check_signature :
      Bool → PolicyRevision → Option SigningKeyPair → Proxied (Unit {0})
  unfolding check_with_key
  check_signature false rev key = ok tt
  check_signature true rev key = do
    bundle ← ok_or (not_ready "deployed revision has no signature") rev.bundle
    check_with_key bundle key

module _ (engine : Cedar) where
  pub record AuthzEngine : Type 0 where
    pub bundle : BundleCache engine
    pub catalog : ResourceCatalog
    pub store : Option PaacStore
    pub require_signed : Bool
    pub mode : RunMode

  module _ (schema : String) (lib : Crypto) where
    -- The engine of a development start without a deployed revision: the active DSL, unsigned.
    unfoldable pub dev_fallback : ProxyConfig → Startup → Proxied AuthzEngine
    unfolding optional_store
    dev_fallback cfg s = do
      policies ←
          map_err (λ e. not_ready (show_policy e))
            (validate_dsl engine schema (read_active_dsl s.disk))
      set ← map_err (λ e. not_ready (show_policy e)) (cedar_policy_set_from_dsl engine policies)
      ok (record {
        bundle = cache_new engine (record {
          policy_set = set;
          policy_revision = "dev-unsigned";
          policy_signature = none;
          signature_key_id = none;
          content_sha256 = none;
          group_members = [];
        });
        catalog = or_else s.catalog empty_catalog;
        store = optional_store s.sqlite;
        require_signed = false;
        mode = cfg.mode;
      })

    -- The engine of a deployed revision.
    unfoldable pub deployed_engine :
        ProxyConfig → Startup → engine.PolicySet → PolicyRevision → Proxied AuthzEngine
    unfolding check_signature required_store
    deployed_engine cfg s set rev = do
      check_signature lib (cfg.require_signed_bundle || is_production cfg.mode) rev s.key_file
      store ← required_store s.sqlite
      ok (record {
        bundle = cache_new engine (record {
          policy_set = set;
          policy_revision = rev.revision;
          policy_signature = on_some (λ b. b.key_id) rev.bundle;
          signature_key_id = on_some (λ b. b.key_id) rev.bundle;
          content_sha256 = on_some (λ b. b.content_sha256) rev.bundle;
          group_members = [];
        });
        catalog = or_else s.catalog empty_catalog;
        store = on_some (upsert_policy_revision rev.revision (revision_row rev)) store;
        require_signed = cfg.require_signed_bundle;
        mode = cfg.mode;
      })

    unfoldable pub from_config : ProxyConfig → Startup → Proxied AuthzEngine
    unfolding dev_fallback deployed_engine
    from_config cfg s = elim (policy_set_from_deployed engine schema s.disk) [
      | ok (set, rev) ↦ deployed_engine cfg s set rev
      | err e ↦
          reject_if (is_production cfg.mode || cfg.require_signed_bundle)
            (not_ready ("signed deployed bundle required: " ^^ show_policy e)) (dev_fallback cfg s)
      | panic ↦ panic
    ]

  -- The first test of `check` and of `is_ready`.
  unfoldable pub is_unsigned : AuthzEngine → Bool
  is_unsigned e = e.require_signed && is_none (load engine e.bundle).policy_signature

  -- `store.enqueue_audit`, if there is a store
  unfoldable pub audit : AuthzDecision → ℕ → AuthzEngine → AuthzEngine
  audit d latency e = record e {
    store = on_some (enqueue_audit d latency (load engine e.bundle).signature_key_id) e.store;
  }

  -- An engine's answer to a request: the decision, and the engine after it.
  unfoldable pub answer :
      ℕ → AuthzEngine → Authz AuthzDecision → Proxied AuthzDecision × AuthzEngine
  unfolding audit
  answer latency e (ok d) = (ok d, audit d latency e)
  answer latency e (err x) = (err (bad_request (show_authz x)), e)
  answer latency e panic = (panic, e)

  unfoldable pub check :
      Stamp → ℕ → AuthzRequest → AuthzEngine → Proxied AuthzDecision × AuthzEngine
  unfolding is_unsigned answer
  check stamp latency req e =
      if is_unsigned e
      then (err (not_ready not_signed_text), e)
      else answer latency e
          (evaluate engine stamp req (to_evaluator_config engine (load engine e.bundle)))

  unfoldable pub is_ready : AuthzEngine → Proxied (Unit {0})
  unfolding is_unsigned
  is_ready e = reject_if (is_unsigned e) (not_ready "signed bundle not loaded") (ok tt)

  -- what is made of a decision that does not allow
  unfoldable pub forbid : String → AuthzDecision → ProxyError
  forbid message d = forbidden message d.evidence.decision_id d

  -- `Ok(d)` exactly for a decision that allows
  unfoldable pub only_allowed : AuthzRequest → Proxied AuthzDecision → Proxied AuthzDecision
  unfolding forbid
  only_allowed req (ok d) =
      if is_allow d.effect
      then ok d
      else err (forbid ("PAAC denied " ^^ (req.action.name ^^ (" on " ^^ req.resource.kind))) d)
  only_allowed req (err e) = err e
  only_allowed req panic = panic

  unfoldable pub allow_or_forbid :
      Stamp → ℕ → AuthzRequest → AuthzEngine → Proxied AuthzDecision × AuthzEngine
  unfolding check only_allowed
  allow_or_forbid stamp latency req e =
      let (r, after) = check stamp latency req e in (only_allowed req r, after)
