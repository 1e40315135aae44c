-- ===== src/Proxy/Engine/Start.antt =====
-- What `from_config` of crates/authz-llm-proxy/src/engine.rs promises of an engine that starts.
use paac.Prelude.{
  String, ◌^^◌, Bool, true, false, ◌||◌, ◌≡◌, ◌≢◌, ◌⊎◌, inl, inr, refl, subst, Option, none, some,
  ok, err, panic, >>=-eq-ok, map_err, ok_or, ok_or-eq-ok, reject_if-eq-ok, arith, Option-cases,
  Bool-cases, ok-injective,
}
use paac.Core.Cedar.{Cedar}
use paac.Core.HotCache.{load, cache_new}
use paac.Policy.Sign.{
  Crypto, SigningKeyPair, SignedBundle, BundleSigner, from_keypair, verify_bundle,
}
use paac.Policy.Store.{PolicyRevision, policy_set_from_deployed, validate_dsl, read_active_dsl}
use paac.Policy.Translate.{cedar_policy_set_from_dsl}
use paac.Proxy.Error.{not_ready, show_policy}
use paac.Proxy.Config.{ProxyConfig, is_production}
use paac.Proxy.Engine.{
  Startup, AuthzEngine, check_bundle, check_with_key, check_signature, required_store, dev_fallback,
  deployed_engine, from_config, is_unsigned, is_ready,
}

-- With a key file that gives a signer, the check lets every answer of the verification pass, so
-- also that the signature is not right.
pub check_with_key_any :
    (lib : Crypto) (bundle : SignedBundle) (pair : SigningKeyPair) (signer : BundleSigner lib)
    (answer : Bool)
    → from_keypair lib pair ≡ ok signer
    → verify_bundle lib bundle signer.verifying_key_bytes ≡ ok answer
    → check_with_key lib bundle (some pair) ≡ ok tt
unfolding check_with_key check_bundle
check_with_key_any lib bundle pair signer answer known verified =
    rw (check_with_key, known, check_bundle, verified) refl

check_signature-bundle :
    (lib : Crypto) (rev : PolicyRevision) (key : Option SigningKeyPair)
    → check_signature lib true rev key ≡ ok tt
    → (b : SignedBundle) × (rev.bundle ≡ some b)
unfolding check_signature
check_signature-bundle lib rev key h =
    let (b, found, _) =
      >>=-eq-ok (ok_or (not_ready "deployed revision has no signature") rev.bundle) _ h in
    (b, ok_or-eq-ok _ rev.bundle found)

module _ (engine : Cedar) (schema : String) (lib : Crypto) (cfg : ProxyConfig) (s : Startup) where
  -- The bundle is signed, or the settings ask for no signature.
  abbrev pub IsCovered : AuthzEngine engine → Type 0
  IsCovered e =
      ((load engine e.bundle).policy_signature ≢ none)
      ⊎ ((is_production cfg.mode ≡ false)
          × (cfg.require_signed_bundle ≡ false)
          × (e.require_signed ≡ false))

  deployed_engine-IsCovered :
      (set : engine.PolicySet) (rev : PolicyRevision) (e : AuthzEngine engine)
      → deployed_engine engine schema lib cfg s set rev ≡ ok e
      → IsCovered e
  unfolding deployed_engine load cache_new
  deployed_engine-IsCovered set rev e h =
      let (_, checked, more) =
        >>=-eq-ok
          (check_signature lib (cfg.require_signed_bundle || is_production cfg.mode) rev s.key_file)
          _ h in
      let (store, _, made) = >>=-eq-ok (required_store s.sqlite) _ more in
      elim (Bool-cases (cfg.require_signed_bundle || is_production cfg.mode)) [
        | inl required ↦
            let (b, signed) = check_signature-bundle lib rev s.key_file (rw required at checked) in
            subst IsCovered (ok-injective made) (inl (λ unsigned. ground arith))
        | inr free ↦ subst IsCovered (ok-injective made) (inr (ground arith))
      ]

  dev_fallback-IsCovered :
      (e : AuthzEngine engine)
      → (is_production cfg.mode || cfg.require_signed_bundle) ≡ false
      → dev_fallback engine schema lib cfg s ≡ ok e
      → IsCovered e
  unfolding dev_fallback load cache_new
  dev_fallback-IsCovered e free h =
      let (policies, _, more) =
        >>=-eq-ok
          (map_err (λ e. not_ready (show_policy e))
            (validate_dsl engine schema (read_active_dsl s.disk)))
          _ h in
      let (set, _, made) =
        >>=-eq-ok
          (map_err (λ e. not_ready (show_policy e)) (cedar_policy_set_from_dsl engine policies)) _
          more in
      subst IsCovered (ok-injective made) (inr (ground arith))

  -- An engine starts only with a signed bundle, or where neither the mode nor the settings ask for
  -- a signature and the engine does not either.
  pub from_config-IsCovered :
      (e : AuthzEngine engine) → from_config engine schema lib cfg s ≡ ok e → IsCovered e
  unfolding from_config
  from_config-IsCovered e h =
      elim (policy_set_from_deployed engine schema s.disk)
          as (λ r. r ≡ policy_set_from_deployed engine schema s.disk → IsCovered e) [
            | ok (set, rev) ↦
                λ same. deployed_engine-IsCovered set rev e (rw (← same, from_config) at h)
            | err x ↦ λ same.
                let (free, fallback) =
                  reject_if-eq-ok (is_production cfg.mode || cfg.require_signed_bundle)
                    (not_ready ("signed deployed bundle required: " ^^ show_policy x))
                    (dev_fallback engine schema lib cfg s) (rw (← same, from_config) at h) in
                dev_fallback-IsCovered e free fallback
            | panic ↦ λ same. let no = rw (← same, from_config) at h in cc
          ]
        refl

  -- An engine that starts is ready.
  pub from_config-is_ready :
      (e : AuthzEngine engine)
      → from_config engine schema lib cfg s ≡ ok e
      → is_ready engine e ≡ ok tt
  unfolding is_ready is_unsigned
  from_config-is_ready e h = elim (from_config-IsCovered e h) [
    | inl signed ↦ elim (Option-cases (load engine e.bundle).policy_signature) [
      | inl absent ↦ absurd (signed absent)
      | inr (k, present) ↦ ground arith
    ]
    | inr (_, _, free) ↦ ground arith
  ]
