-- ===== src/Cli/Lifecycle.antt =====
-- The commands of crates/authz-cli/src/main.rs as steps of the policy store, whatever becomes of them.
use Prim.Native.Nat.{ℕ}
use paac.Prelude.{
  String, Bool, true, false, ok, map_err, ok_or, >>=-eq-ok, ok-injective, map_err-eq-ok, ◌≡◌, refl,
  sym, ap, ◌∙◌, none, some,
}
use paac.Policy.Sign.{BundleSigner, SignedBundle, sign_bundle}
use paac.Policy.Store.{
  PolicyRevision, Disk, write_draft, commit, sign_head, deploy_head, validate_dsl, read_active_dsl,
  head_revision, load_revision,
}
use paac.Policy.Translate.{dsl_to_cedar}
use paac.Policy.Store.Lifecycle.{Step, Reach}
use paac.Cli.State.{Paths, policy, json, Libraries, Moment, World, Cli, after}
use paac.Cli.Policies.{
  policy_validate, policy_test, policy_diff, policy_commit, policy_sign, policy_deploy, ensure_key,
  signer_of,
}
use paac.Cli.Main.{
  Commands, identity_cmd, policy_cmd, check, explain, suggestions, catalog_validate, proxy_run,
  IdentityCmd, sync, discover, PolicyCmd, validate, test, diff, sign, deploy, suggest, run,
  identity_arm, policy_arm, proxy_arm, catalog_arm,
}
use paac.Cli.Decisions.{explain_cmd, suggest_cmd}
use paac.Cli.Main as Main
use paac.Cli.Moves.{
  AllowsDrafts, Moves, after-Moves, put_disk-Moves, identity_sync-Moves, identity_discover-Moves,
}
use paac.Cli.Laws.{
  policy_validate-Moves, policy_test-Moves, policy_diff-Moves, check_cmd-Moves, explain_cmd-Moves,
  suggest_cmd-Moves, catalog_arm-Moves,
}

-- The commands that may write a revision, the head or the deployment.
abbrev pub is_release : Commands → Bool
is_release (policy_cmd (Main.commit message)) = true
is_release (policy_cmd sign) = true
is_release (policy_cmd deploy) = true
is_release _ = false

-- The command that may write the deployment.
abbrev pub is_deploy : Commands → Bool
is_deploy (policy_cmd deploy) = true
is_deploy _ = false

-- Nothing but drafts has changed.
pub record SameButDrafts (d e : Disk) : Type 0 where
  pub active : e.active ≡ d.active
  pub head : e.head ≡ d.head
  pub revisions : e.revisions ≡ d.revisions
  pub deployed : e.deployed ≡ d.deployed

SameButDrafts-AllowsDrafts : AllowsDrafts SameButDrafts
unfolding write_draft
SameButDrafts-AllowsDrafts = record {
  same = λ d. record { active = refl; head = refl; revisions = refl; deployed = refl };
  then_ = λ h k. record {
    active = k.active ∙ h.active;
    head = k.head ∙ h.head;
    revisions = k.revisions ∙ h.revisions;
    deployed = k.deployed ∙ h.deployed;
  };
  drafts = λ name dsl d. record { active = refl; head = refl; revisions = refl; deployed = refl };
}

-- The deployment is the same.
abbrev SameDeployed : Disk → Disk → Type 0
SameDeployed d e = e.deployed ≡ d.deployed

SameDeployed-AllowsDrafts : AllowsDrafts SameDeployed
unfolding write_draft
SameDeployed-AllowsDrafts = record {
  same = λ d. refl;
  then_ = λ h k. k ∙ h;
  drafts = λ name dsl d. refl;
}

module _ (lib : Libraries) (paths : Paths) (moment : Moment lib) where
  -- What can be reached from a disk that can be reached.
  abbrev StaysReached : Disk → Disk → Type 0
  StaysReached d e =
      Reach lib.cedar lib.schema lib.crypto d → Reach lib.cedar lib.schema lib.crypto e

  StaysReached-AllowsDrafts : AllowsDrafts StaysReached
  StaysReached-AllowsDrafts = record {
    same = λ d r. r;
    then_ = λ h k r. k (h r);
    drafts = λ name dsl d r. Reach.next r (Step.draft name dsl);
  }

  module _ (R : Disk → Disk → Type 0) (allows : AllowsDrafts R) where
    -- The signer is made without the store.
    signer_of-Moves : (key : _) → Moves R allows (signer_of lib moment paths key)
    unfolding signer_of
    signer_of-Moves none w = allows.same w.disk
    signer_of-Moves (some file) w =
        after-Moves R allows (map_err json file, w) _ w.disk (allows.same w.disk)
          (λ pair v. allows.same v.disk)

    abbrev CommitMoves : Type 0
    CommitMoves =
        (message : String) (d : Disk) (r : PolicyRevision) (e : Disk)
        → commit lib.cedar lib.schema moment.clock message d ≡ ok (r, e)
        → R d e

    abbrev SignMoves : Type 0
    SignMoves =
        (signer : BundleSigner lib.crypto) (d : Disk) (b : SignedBundle) (e : Disk)
        → sign_head lib.crypto signer moment.clock.rfc3339 d ≡ ok (b, e)
        → R d e

    abbrev DeployMoves : Type 0
    DeployMoves = (d : Disk) (r : PolicyRevision) (e : Disk) → deploy_head d ≡ ok (r, e) → R d e

    policy_commit-Moves :
        CommitMoves → (message : String) → Moves R allows (policy_commit lib moment message)
    unfolding policy_commit
    policy_commit-Moves commits message w =
        after-Moves R allows _ _ w.disk
          (put_disk-Moves R allows w
            (map_err policy (commit lib.cedar lib.schema moment.clock message w.disk))
            (λ r e h. commits message w.disk r e (map_err-eq-ok policy _ h)))
          (λ r v. allows.same v.disk)

    policy_sign-Moves : SignMoves → Moves R allows (policy_sign lib moment paths)
    unfolding policy_sign ensure_key
    policy_sign-Moves signs w =
        after-Moves R allows (signer_of lib moment paths w.key w) _ w.disk (signer_of-Moves w.key w)
          (λ signer v.
            after-Moves R allows _ _ v.disk
              (put_disk-Moves R allows v
                (map_err policy (sign_head lib.crypto signer moment.clock.rfc3339 v.disk))
                (λ b e h. signs signer v.disk b e (map_err-eq-ok policy _ h)))
              (λ b u. allows.same u.disk))

    policy_deploy-Moves : DeployMoves → Moves R allows policy_deploy
    unfolding policy_deploy
    policy_deploy-Moves deploys w =
        after-Moves R allows _ _ w.disk
          (put_disk-Moves R allows w (map_err policy (deploy_head w.disk))
            (λ r e h. deploys w.disk r e (map_err-eq-ok policy _ h)))
          (λ r v. allows.same v.disk)

    zero-Moves :
        (m : Cli (Unit {0}))
        → Moves R allows m
        → Moves R allows {A = ℕ} (λ w. after (m w) (λ _ v. (ok 0, v)))
    zero-Moves m h w =
        after-Moves R allows (m w) (λ _ v. (ok 0, v)) w.disk (h w) (λ _ v. allows.same v.disk)

    identity_arm-Moves : (cmd : IdentityCmd) → Moves R allows (identity_arm lib paths moment cmd)
    unfolding identity_arm
    identity_arm-Moves (sync source drafts) w =
        identity_sync-Moves R allows lib paths moment source drafts w
    identity_arm-Moves (discover drafts) w =
        identity_discover-Moves R allows lib paths moment drafts w

    -- A command that is no release does what drafting does, whatever becomes of it.
    kept-Moves :
        (cmd : Commands) → is_release cmd ≡ false → Moves R allows (run lib paths moment cmd)
    unfolding run policy_arm proxy_arm
    kept-Moves (identity_cmd cmd) h w =
        zero-Moves (identity_arm lib paths moment cmd) (identity_arm-Moves cmd) w
    kept-Moves (policy_cmd (validate file)) h w =
        zero-Moves (policy_validate lib file) (policy_validate-Moves R allows lib paths moment file)
          w
    kept-Moves (policy_cmd test) h w =
        zero-Moves (policy_test lib moment) (policy_test-Moves R allows lib paths moment) w
    kept-Moves (policy_cmd (diff revision)) h w =
        zero-Moves (policy_diff revision) (policy_diff-Moves R allows revision) w
    kept-Moves (policy_cmd (Main.commit message)) h w = cc
    kept-Moves (policy_cmd sign) h w = cc
    kept-Moves (policy_cmd deploy) h w = cc
    kept-Moves (policy_cmd suggest) h w =
        zero-Moves (suggest_cmd lib moment) (suggest_cmd-Moves R allows lib paths moment) w
    kept-Moves (check flags) h w = check_cmd-Moves R allows lib paths moment flags w
    kept-Moves (explain id) h w =
        zero-Moves (explain_cmd lib moment paths id)
          (explain_cmd-Moves R allows lib paths moment id) w
    kept-Moves suggestions h w =
        zero-Moves (suggest_cmd lib moment) (suggest_cmd-Moves R allows lib paths moment) w
    kept-Moves (catalog_validate file) h w =
        zero-Moves (catalog_arm lib paths moment file)
          (catalog_arm-Moves R allows lib paths moment file) w
    kept-Moves (proxy_run config listen) h w = allows.same w.disk

    -- Every command, where the three release commands do what is wanted.
    run-Moves :
        CommitMoves
        → SignMoves
        → (cmd : Commands) → (is_deploy cmd ≡ true → DeployMoves)
        → Moves R allows (run lib paths moment cmd)
    unfolding run policy_arm
    run-Moves c s (policy_cmd (Main.commit message)) d w =
        zero-Moves (policy_commit lib moment message) (policy_commit-Moves c message) w
    run-Moves c s (policy_cmd sign) d w =
        zero-Moves (policy_sign lib moment paths) (policy_sign-Moves s) w
    run-Moves c s (policy_cmd deploy) d w =
        zero-Moves (policy_deploy) (policy_deploy-Moves (d refl)) w
    run-Moves c s (policy_cmd (validate file)) d w = kept-Moves (policy_cmd (validate file)) refl w
    run-Moves c s (policy_cmd test) d w = kept-Moves (policy_cmd test) refl w
    run-Moves c s (policy_cmd (diff revision)) d w = kept-Moves (policy_cmd (diff revision)) refl w
    run-Moves c s (policy_cmd suggest) d w = kept-Moves (policy_cmd suggest) refl w
    run-Moves c s (identity_cmd cmd) d w = kept-Moves (identity_cmd cmd) refl w
    run-Moves c s (check flags) d w = kept-Moves (check flags) refl w
    run-Moves c s (explain id) d w = kept-Moves (explain id) refl w
    run-Moves c s suggestions d w = kept-Moves suggestions refl w
    run-Moves c s (catalog_validate file) d w = kept-Moves (catalog_validate file) refl w
    run-Moves c s (proxy_run config listen) d w = kept-Moves (proxy_run config listen) refl w

  -- From a policy store that its own steps can reach, each command leads to one that they can reach,
  -- whatever the command's outcome, also where it fails halfway.
  pub run-Reach :
      (cmd : Commands) (w : World)
      → Reach lib.cedar lib.schema lib.crypto w.disk
      → Reach lib.cedar lib.schema lib.crypto (run lib paths moment cmd w).1.disk
  run-Reach cmd w reached =
      run-Moves StaysReached StaysReached-AllowsDrafts
        (λ message d r e h reach. Reach.next reach (Step.commits moment.clock message r h))
        (λ signer d b e h reach. Reach.next reach (Step.signs signer moment.clock.rfc3339 b h)) cmd
        (λ _ d r e h reach. Reach.next reach (Step.deploys r h)) w reached

  commit-SameDeployed : CommitMoves SameDeployed SameDeployed-AllowsDrafts
  unfolding commit
  commit-SameDeployed message d r e h =
      let (ps, valid, more) =
        >>=-eq-ok (validate_dsl lib.cedar lib.schema (read_active_dsl d)) _ h in
      let (text, translated, made) = >>=-eq-ok (dsl_to_cedar ps) _ more in
      sym (ap (λ p. p.1.deployed) (ok-injective made))

  sign_head-SameDeployed : SignMoves SameDeployed SameDeployed-AllowsDrafts
  unfolding sign_head
  sign_head-SameDeployed signer d b e h =
      let (k, headed, more) = >>=-eq-ok (ok_or _ (head_revision d)) _ h in
      let (r, loaded, more') = >>=-eq-ok (load_revision k d) _ more in
      let (b, signed, made) =
        >>=-eq-ok (sign_bundle lib.crypto signer r.revision r.cedar r.dsl moment.clock.rfc3339) _
          more' in
      sym (ap (λ p. p.1.deployed) (ok-injective made))

  -- Whatever its outcome, a command other than `policy deploy` leaves the deployed revision as it is.
  pub run-deployed :
      (cmd : Commands) (w : World)
      → is_deploy cmd ≡ false
      → (run lib paths moment cmd w).1.disk.deployed ≡ w.disk.deployed
  run-deployed cmd w h =
      run-Moves SameDeployed SameDeployed-AllowsDrafts commit-SameDeployed sign_head-SameDeployed
        cmd (λ e. absurd (cc (sym h ∙ e))) w

  -- Whatever its outcome, a command other than `policy commit`, `policy sign` and `policy deploy` changes
  -- nothing of the policy store but its drafts: neither the active text nor the head, a revision or the
  -- deployment.
  pub run-SameButDrafts :
      (cmd : Commands) (w : World)
      → is_release cmd ≡ false
      → SameButDrafts w.disk (run lib paths moment cmd w).1.disk
  run-SameButDrafts cmd w h = kept-Moves SameButDrafts SameButDrafts-AllowsDrafts cmd h w
