-- ===== src/Cli/Release.antt =====
-- The commands `policy commit`, `policy sign` and `policy deploy` of crates/authz-cli/src/main.rs one
-- after the other: what they release.
pub mod Served
use Prim.Native.Nat.{ℕ}
use paac.Prelude.{
  String, true, Option, none, some, List, Result, ok, err, panic, map_err, map_err-eq-ok, ok_or,
  ok_or-eq-ok, >>=-eq-ok, ok-injective, ◌≡◌, refl, sym, ap, ◌∙◌, subst,
}
use paac.Policy.Dsl.{DslPolicy}
use paac.Policy.Translate.{dsl_to_cedar}
use paac.Policy.Sign.{
  Crypto, SigningKeyPair, SignedBundle, BundleSigner, local_signer, from_keypair, generate,
  sign_bundle, verify_bundle,
}
use paac.Policy.Sign.Laws.{CryptoLaws, KeyLaws, verify_bundle-sign_bundle, from_keypair-generate}
use paac.Policy.Store.{
  Clock, PolicyRevision, Disk, read_active_dsl, validate_dsl, commit, sign_head, deploy_head,
}
use paac.Policy.Store.Lifecycle.{
  IsTrimmedName, IsHead, commit-IsHead, sign_head-bind, deploy_head-sign_head,
}
use paac.Cli.State.{
  Paths, CliError, policy, json, Libraries, Moment, World, Cli, after, put_disk, on_disk,
}
use paac.Cli.Policies.{policy_commit, policy_sign, policy_deploy, ensure_key, signer_of}
use paac.Cli.Main as Main
use paac.Cli.Main.{policy_cmd, sign, deploy, run, policy_arm}
use paac.Cli.Outcomes.{after-eq-ok, after-ok}
use paac.Cli.Successes.{
  IsLocal, policy_commit-eq-ok, policy_sign-eq-ok, policy_deploy-ok, then-eq-ok,
}

module _ (lib : Libraries) where
  -- A release of a text: the deployed revision is that text with its translation, and it has a bundle
  -- of the translation that verifies under the bytes of the key of a pair.
  pub record IsReleased (dsl : String) (d : Disk) : Type 0 where
    pub rev : PolicyRevision
    pub bundle : SignedBundle
    pub policies : List DslPolicy
    pub pair : SigningKeyPair
    pub key_id : String
    pub secret : lib.crypto.Secret
    pub known : from_keypair lib.crypto pair ≡ ok (local_signer lib.crypto key_id secret)
    pub deployed : d.deployed ≡ some (record rev { bundle = some bundle })
    pub text : rev.dsl ≡ dsl
    pub valid : validate_dsl lib.cedar lib.schema dsl ≡ ok policies
    pub translated : dsl_to_cedar policies ≡ ok rev.cedar
    pub signed : bundle.cedar ≡ rev.cedar
    pub verified : verify_bundle lib.crypto bundle (lib.crypto.verifying_key secret) ≡ ok true

  local_sign-lem :
      (laws : CryptoLaws lib.crypto) (signer : BundleSigner lib.crypto) (local : IsLocal lib signer)
      (revision cedar dsl now : String) (b : SignedBundle)
      → sign_bundle lib.crypto signer revision cedar dsl now ≡ ok b
      → (b.cedar ≡ cedar)
        × (verify_bundle lib.crypto b (lib.crypto.verifying_key local.secret) ≡ ok true)
  unfolding sign_bundle local_signer
  local_sign-lem laws signer local revision cedar dsl now b h =
      let signed =
        subst (λ s. sign_bundle lib.crypto s revision cedar dsl now ≡ ok b) local.local h in
      (
        sym (ap (λ x. x.cedar) (ok-injective signed)),
        verify_bundle-sign_bundle lib.crypto laws local.key_id local.secret revision cedar dsl now b
            signed,
      )

  -- A deployment of what was committed and then signed is a release.
  release :
      (laws : CryptoLaws lib.crypto) (clock : Clock) (message now : String) (d d1 d2 e : Disk)
      (r : PolicyRevision) (b : SignedBundle) (signer : BundleSigner lib.crypto)
      → IsTrimmedName clock
      → (local : IsLocal lib signer) → commit lib.cedar lib.schema clock message d ≡ ok (r, d1)
      → sign_head lib.crypto signer now d1 ≡ ok (b, d2)
      → e.deployed ≡ some (record r { bundle = some b })
      → (released : IsReleased (read_active_dsl d) e) × (released.pair ≡ local.pair)
  unfolding commit
  release laws clock message now d d1 d2 e r b signer named local h k there =
      let (ps, valid, more) =
        >>=-eq-ok (validate_dsl lib.cedar lib.schema (read_active_dsl d)) _ h in
      let (text, translated, made) = >>=-eq-ok (dsl_to_cedar ps) _ more in
      let head = (commit-IsHead lib.cedar lib.schema lib.crypto clock message d named h).0 in
      let (b', signed, put) =
        >>=-eq-ok (sign_bundle lib.crypto signer r.revision r.cedar r.dsl now) _
          (sym (sign_head-bind lib.cedar lib.schema lib.crypto signer now r d1 head) ∙ k) in
      let same : b' ≡ b = ap (λ p. p.0) (ok-injective put) in
      let (cedar, verified) =
        local_sign-lem laws signer local r.revision r.cedar r.dsl now b
          (signed ∙ ap (λ x. ok x) same) in
      (
        record {
          rev = r;
          bundle = b;
          policies = ps;
          secret = local.secret;
          deployed = there;
          text = sym (ap (λ p. p.0.dsl) (ok-injective made));
          valid = valid;
          translated = translated ∙ ap (λ p. ok p.0.cedar) (ok-injective made);
          signed = cedar;
          verified = verified;
          pair = local.pair;
          key_id = local.key_id;
          known = local.known;
        },
        refl,
      )

  module _ (paths : Paths) (keys : KeyLaws lib.crypto) where
    -- What was active when `policy commit` succeeded and was then signed by a `policy sign` that
    -- succeeded is released by `policy deploy`, which cannot fail then: the deployed revision is that
    -- text with its translation, and its bundle is one of the translation that verifies under the bytes
    -- of the key in the key file. The libraries are taken to behave as documented, and the names of
    -- revisions to have no white space round them.
    pub deploy-IsReleased :
        (laws : CryptoLaws lib.crypto) (first second third : Moment lib) (message : String)
        (w w1 w2 : World)
        → IsTrimmedName first.clock
        → run lib paths first (policy_cmd (Main.commit message)) w ≡ (ok 0, w1)
        → run lib paths second (policy_cmd sign) w1 ≡ (ok 0, w2)
        → ((run lib paths third (policy_cmd deploy) w2).0 ≡ ok 0)
          × (released : IsReleased
              (read_active_dsl w.disk)
              (run lib paths third (policy_cmd deploy) w2).1.disk)
          × ((run lib paths third (policy_cmd deploy) w2).1.key ≡ some (ok released.pair))
    unfolding run policy_arm
    deploy-IsReleased laws first second third message w w1 w2 named h k =
        let (r, committed) =
          policy_commit-eq-ok lib paths keys first message w w1
            (then-eq-ok lib paths keys (policy_commit lib first message) w w1 h) in
        let (signer, b, local, signed, key) =
          policy_sign-eq-ok lib paths keys second w1 w2
            (then-eq-ok lib paths keys (policy_sign lib second paths) w1 w2 k) in
        let head =
          deploy_head-sign_head lib.cedar lib.schema lib.crypto first.clock message signer
            second.clock.rfc3339 w.disk w1.disk w2.disk r b named committed signed in
        let (fine, there, kept) = policy_deploy-ok lib paths keys w2 _ _ head in
        let whole = after-ok (policy_deploy w2) (λ _ u. (ok 0, u)) fine in
        let (released, same) =
          release laws first.clock message second.clock.rfc3339 w.disk w1.disk w2.disk _ r b signer
            named local committed signed
            (ap (λ p. p.1.disk.deployed) whole ∙ ap (λ d. d.deployed) there) in
        (
          ap (λ p. p.0) whole,
          released,
          ap (λ p. p.1.key) whole ∙ (kept ∙ (key ∙ ap (λ x. some (ok x)) (sym same))),
        )
