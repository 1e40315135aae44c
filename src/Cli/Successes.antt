-- ===== src/Cli/Successes.antt =====
-- What the commands `policy commit`, `policy sign` and `policy deploy` of crates/authz-cli/src/main.rs have
-- done where they succeed, and the signer that they take from the key file.
use Prim.Native.Nat.{ℕ}
use paac.Prelude.{
  String, Option, none, some, Result, ok, err, panic, map_err, map_err-eq-ok, ok_or, >>=-eq-ok,
  ok-injective, ◌≡◌, refl, sym, ap, ◌∙◌, subst,
}
use paac.Policy.Sign.{
  SigningKeyPair, SignedBundle, BundleSigner, local_signer, from_keypair, generate,
}
use paac.Policy.Sign.Laws.{KeyLaws, from_keypair-generate}
use paac.Policy.Store.{PolicyRevision, Disk, commit, sign_head, deploy_head}
use paac.Cli.State.{
  Paths, CliError, policy, Libraries, Moment, World, Cli, after, put_disk, on_disk,
}
use paac.Cli.Policies.{policy_commit, policy_sign, policy_deploy, ensure_key, signer_of}
use paac.Cli.Main.{run}
use paac.Cli.Outcomes.{after-eq-ok}

put_disk-eq-ok :
    {A : Type 0} (w : World) (r : Result CliError (A × Disk)) {a : A} {v : World}
    → put_disk w r ≡ (ok a, v)
    → r ≡ ok (a, v.disk)
put_disk-eq-ok w (ok (b, d)) h = cc
put_disk-eq-ok w (err e) h = absurd (cc h)
put_disk-eq-ok w panic h = absurd (cc h)

-- A change of the disk leaves the key file.
put_disk-key :
    {A : Type 0} (w : World) (r : Result CliError (A × Disk)) {a : A} {v : World}
    → put_disk w r ≡ (ok a, v)
    → v.key ≡ w.key
put_disk-key w (ok (b, d)) h = sym (ap (λ p. p.1.key) h)
put_disk-key w (err e) h = absurd (cc h)
put_disk-key w panic h = absurd (cc h)

module _ (lib : Libraries) where
  -- The signer of a key pair.
  pub record IsLocal (signer : BundleSigner lib.crypto) : Type 0 where
    pub key_id : String
    pub secret : lib.crypto.Secret
    pub local : signer ≡ local_signer lib.crypto key_id secret
    pub pair : SigningKeyPair
    pub known : from_keypair lib.crypto pair ≡ ok (local_signer lib.crypto key_id secret)

  from_keypair-IsLocal :
      (pair : SigningKeyPair) (signer : BundleSigner lib.crypto)
      → from_keypair lib.crypto pair ≡ ok signer
      → (local : IsLocal signer) × (local.pair ≡ pair)
  unfolding from_keypair
  from_keypair-IsLocal pair signer h =
      let (bytes, _, more) = >>=-eq-ok (map_err _ (lib.crypto.hex_decode pair.secret_hex)) _ h in
      let (secret, _, made) = >>=-eq-ok (ok_or _ (lib.crypto.secret_of bytes)) _ more in
      (
        record {
          key_id = pair.key_id;
          secret = secret;
          local = sym (ok-injective made);
          pair = pair;
          known = h ∙ ap (λ x. ok x) (sym (ok-injective made));
        },
        refl,
      )

  module _ (paths : Paths) (keys : KeyLaws lib.crypto) where
    pub policy_commit-eq-ok :
        (moment : Moment lib) (message : String) (w v : World)
        → policy_commit lib moment message w ≡ (ok tt, v)
        → (r : PolicyRevision) × (commit lib.cedar lib.schema moment.clock message w.disk
            ≡ ok (r, v.disk))
    unfolding policy_commit
    policy_commit-eq-ok moment message w v h =
        let (r, u, e, s) =
          after-eq-ok (on_disk (commit lib.cedar lib.schema moment.clock message) w) _
            (ap (λ p. p.0) h) in
        let done = map_err-eq-ok policy _ (put_disk-eq-ok w _ e) in
        (
          r,
          subst (λ d. commit lib.cedar lib.schema moment.clock message w.disk ≡ ok (r, d))
              (ap (λ p. p.1.disk) (sym s ∙ h)) done,
        )

    signer_of-eq-ok :
        (moment : Moment lib) (key : Option (Result String SigningKeyPair)) (w v : World)
        (signer : BundleSigner lib.crypto)
        → signer_of lib moment paths key w ≡ (ok signer, v)
        → key ≡ w.key
        → (local : IsLocal signer) × (v.disk ≡ w.disk) × (v.key ≡ some (ok local.pair))
    unfolding signer_of generate
    signer_of-eq-ok moment none w v signer h same = (
      record {
        key_id = "key-local-mvp";
        secret = moment.secret;
        local = sym (ok-injective (ap (λ p. p.0) h));
        pair = (generate lib.crypto "key-local-mvp" moment.secret).1;
        known = from_keypair-generate lib.crypto keys "key-local-mvp" moment.secret;
      },
      sym (ap (λ p. p.1.disk) h),
      sym (ap (λ p. p.1.key) h),
    )
    signer_of-eq-ok moment (some (ok pair)) w v signer h same =
        let (local, read) =
          from_keypair-IsLocal pair signer (map_err-eq-ok policy _ (ap (λ p. p.0) h)) in
        (
          local,
          sym (ap (λ p. p.1.disk) h),
          sym (same ∙ ap (λ p. p.1.key) h) ∙ ap (λ x. some (ok x)) (sym read),
        )
    signer_of-eq-ok moment (some (err e)) w v signer h same = absurd (cc h)
    signer_of-eq-ok moment (some panic) w v signer h same = absurd (cc h)

    pub policy_sign-eq-ok :
        (moment : Moment lib) (w v : World)
        → policy_sign lib moment paths w ≡ (ok tt, v)
        → (signer : BundleSigner lib.crypto) × (b : SignedBundle) × (local : IsLocal signer)
          × (sign_head lib.crypto signer moment.clock.rfc3339 w.disk ≡ ok (b, v.disk))
          × (v.key ≡ some (ok local.pair))
    unfolding policy_sign ensure_key
    policy_sign-eq-ok moment w v h =
        let (signer, u, e, s) =
          after-eq-ok (signer_of lib moment paths w.key w) _ (ap (λ p. p.0) h) in
        let (local, same, kept) = signer_of-eq-ok moment w.key w u signer e refl in
        let (b, t, e2, s2) =
          after-eq-ok (on_disk (sign_head lib.crypto signer moment.clock.rfc3339) u) _
            (ap (λ p. p.0) (sym s ∙ h)) in
        let done = map_err-eq-ok policy _ (put_disk-eq-ok u _ e2) in
        (
          signer,
          b,
          local,
          subst (λ d. sign_head lib.crypto signer moment.clock.rfc3339 d ≡ ok (b, v.disk)) same
              (subst (λ d. sign_head lib.crypto signer moment.clock.rfc3339 u.disk ≡ ok (b, d))
                (ap (λ p. p.1.disk) (sym s2 ∙ (sym s ∙ h))) done),
          sym (ap (λ p. p.1.key) (sym s2 ∙ (sym s ∙ h))) ∙ (put_disk-key u _ e2 ∙ kept),
        )

    -- `policy deploy`, where the head can be deployed.
    pub policy_deploy-ok :
        (w : World) (r : PolicyRevision) (d : Disk)
        → deploy_head w.disk ≡ ok (r, d)
        → ((policy_deploy w).0 ≡ ok tt)
          × ((policy_deploy w).1.disk ≡ d)
          × ((policy_deploy w).1.key ≡ w.key)
    unfolding policy_deploy
    policy_deploy-ok w r d h = rw h (refl, refl, refl)

    -- A command of a policy that exits with 0.
    pub then-eq-ok :
        (run : Cli (Unit {0})) (w v : World)
        → ◌≡◌ {A = Result CliError ℕ × World} (after (run w) (λ _ u. (ok 0, u))) (ok 0, v)
        → run w ≡ (ok tt, v)
    then-eq-ok run w v h =
        let (t, u, e, s) = after-eq-ok (run w) _ (ap (λ p. p.0) h) in
        e ∙ ap (λ x. (ok tt, x)) (ap (λ p. p.1) (sym s ∙ h))
