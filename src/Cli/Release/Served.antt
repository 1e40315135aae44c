-- ===== src/Cli/Release/Served.antt =====
-- From the commands of crates/authz-cli/src/main.rs to the start of crates/authz-llm-proxy/src/engine.rs:
-- a gateway over a released policy starts and serves it.
use paac.Prelude.{
  String, Bool, true, false, ◌||◌, Option, none, some, [], or_else, ok, map_err-eq-ok, >>=-eq-ok,
  ok-injective, reject_if-eq-ok, ◌≡◌, refl, sym, ap, ◌∙◌, subst,
}
use paac.Core.HotCache.{load, cache_new}
use paac.Policy.Dsl.{parse_dsl}
use paac.Policy.Translate.{dsl_to_cedar, cedar_policy_set_from_dsl, validate_cedar_policy_set}
use paac.Policy.Sign.{SigningKeyPair, local_signer, from_keypair}
use paac.Policy.Store.{PolicyRevision, Disk, validate_dsl, policy_set_from_deployed, load_deployed}
use paac.Store.{PaacStore, upsert_policy_revision}
use paac.Cli.State.{Libraries}
use paac.Cli.Release.{IsReleased}
use paac.Proxy.Config.{ProxyConfig, is_production}
use paac.Proxy.Engine.{
  Startup, AuthzEngine, from_config, deployed_engine, check_signature, check_with_key,
  required_store, is_ready, empty_catalog, revision_row, on_some,
}
use paac.Proxy.Engine.Start.{from_config-is_ready, check_with_key_any}

module _ (lib : Libraries) (dsl : String) (d : Disk) (released : IsReleased lib dsl d) where
  -- The deployed revision.
  abbrev pub in_force : PolicyRevision
  in_force = record released.rev { bundle = some released.bundle }

  -- The Cedar text was parsed when it was committed.
  parsed : (set : lib.cedar.PolicySet) × (lib.cedar.parse_policy_set released.rev.cedar ≡ ok set)
  unfolding validate_dsl cedar_policy_set_from_dsl
  parsed =
      let (ps, _, m1) = >>=-eq-ok (parse_dsl dsl) _ released.valid in
      let (text, t1, m2) = >>=-eq-ok (dsl_to_cedar ps) _ m1 in
      let (set, s1, m3) = >>=-eq-ok (cedar_policy_set_from_dsl lib.cedar ps) _ m2 in
      let (_, v1, m4) = >>=-eq-ok (validate_cedar_policy_set lib.cedar lib.schema set) _ m3 in
      let same : ps ≡ released.policies = ok-injective (reject_if-eq-ok _ _ _ m4).1 in
      let (text', t2, p2) = >>=-eq-ok (dsl_to_cedar ps) _ s1 in
      let cedar : text' ≡ released.rev.cedar =
        ok-injective (sym t2 ∙ (ap dsl_to_cedar same ∙ released.translated)) in
      (set, subst (λ t. lib.cedar.parse_policy_set t ≡ ok set) cedar (map_err-eq-ok _ _ p2))

  found :
      (set : lib.cedar.PolicySet)
      → lib.cedar.parse_policy_set released.rev.cedar ≡ ok set
      → policy_set_from_deployed lib.cedar lib.schema d ≡ ok (set, in_force)
  unfolding policy_set_from_deployed load_deployed
  found set parses = rw released.deployed (rw parses refl)

  -- There is no key file, or it holds the pair of the key that signed the release.
  abbrev pub FitsKey : Option SigningKeyPair → Type 0
  FitsKey none = Unit
  FitsKey (some pair) = pair ≡ released.pair

  check_with_key-FitsKey :
      (key : Option SigningKeyPair)
      → FitsKey key
      → check_with_key lib.crypto released.bundle key ≡ ok tt
  unfolding check_with_key local_signer
  check_with_key-FitsKey none fits = refl
  check_with_key-FitsKey (some pair) same =
      check_with_key_any lib.crypto released.bundle pair
        (local_signer lib.crypto released.key_id released.secret) true
        (subst
          (λ x.
            from_keypair lib.crypto x
            ≡ ok (local_signer lib.crypto released.key_id released.secret))
          (sym same) released.known)
        released.verified

  check_signature-FitsKey :
      (required : Bool) (key : Option SigningKeyPair)
      → FitsKey key
      → check_signature lib.crypto required in_force key ≡ ok tt
  unfolding check_signature
  check_signature-FitsKey false key fits = refl
  check_signature-FitsKey true key fits = rw (check_with_key-FitsKey key fits) refl

  -- The engine that is started.
  abbrev served_engine :
      lib.cedar.PolicySet → ProxyConfig → Startup → Option PaacStore → AuthzEngine lib.cedar
  served_engine set cfg s store = record {
    bundle = cache_new lib.cedar (record {
      policy_set = set;
      policy_revision = in_force.revision;
      policy_signature = some released.bundle.key_id;
      signature_key_id = some released.bundle.key_id;
      content_sha256 = some released.bundle.content_sha256;
      group_members = [];
    });
    catalog = or_else s.catalog empty_catalog;
    store = on_some (upsert_policy_revision in_force.revision (revision_row in_force)) store;
    require_signed = cfg.require_signed_bundle;
    mode = cfg.mode;
  }

  from_config-served :
      (set : lib.cedar.PolicySet) (cfg : ProxyConfig) (s : Startup) (store : Option PaacStore)
      → policy_set_from_deployed lib.cedar lib.schema s.disk ≡ ok (set, in_force)
      → check_signature lib.crypto
          (cfg.require_signed_bundle || is_production cfg.mode)
          in_force
          s.key_file
        ≡ ok tt
      → required_store s.sqlite ≡ ok store
      → from_config lib.cedar lib.schema lib.crypto cfg s ≡ ok (served_engine set cfg s store)
  unfolding from_config deployed_engine cache_new
  from_config-served set cfg s store set_found signed opened =
      rw (set_found, from_config) (rw (signed, deployed_engine) (rw opened refl))

  -- A gateway over a released policy starts, in either mode, if the database opens and the key file, if
  -- there is one, holds the key of the release. It is ready, and the policies that it serves are those
  -- of the released text.
  pub from_config-IsReleased :
      (cfg : ProxyConfig) (s : Startup) (store : Option PaacStore)
      → s.disk ≡ d
      → FitsKey s.key_file
      → required_store s.sqlite ≡ ok store
      → (e : AuthzEngine lib.cedar) × (from_config lib.cedar lib.schema lib.crypto cfg s ≡ ok e)
        × (is_ready lib.cedar e ≡ ok tt)
        × ((load lib.cedar e.bundle).policy_revision ≡ released.rev.revision)
        × (lib.cedar.parse_policy_set released.rev.cedar ≡ ok (load lib.cedar e.bundle).policy_set)
  unfolding load cache_new
  from_config-IsReleased cfg s store there fits opened =
      let (set, parses) = parsed in
      let set_found =
        subst (λ x. policy_set_from_deployed lib.cedar lib.schema x ≡ ok (set, in_force))
          (sym there) (found set parses) in
      let signed =
        check_signature-FitsKey (cfg.require_signed_bundle || is_production cfg.mode) s.key_file
          fits in
      let starts = from_config-served set cfg s store set_found signed opened in
      (
        served_engine set cfg s store,
        starts,
        from_config-is_ready lib.cedar lib.schema lib.crypto cfg s (served_engine set cfg s store)
            starts,
        refl,
        parses,
      )
