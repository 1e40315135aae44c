-- ===== src/Policy/Store/Lifecycle.antt =====
-- The life of a policy through the store of crates/authz-policy/src/store.rs.
use paac.Prelude.{
  String, ◌≡◌, refl, sym, ap, subst, ◌∙◌, false, none, some, List, ok, err, ok_or, ◌>>=◌, >>=-eq-ok,
  ok-injective, ok_or-eq-ok, reject_if-eq-ok, some-injective, lookup, insert, lookup-insert,
  is_none, trim, arith, eq_iff, eq_refl, str_eq, Bool-cases, inl, inr, IndexMap,
}
use paac.Core.Cedar.{Cedar}
use paac.Policy.Error.{store}
use paac.Policy.Dsl.{DslPolicy}
use paac.Policy.Translate.{dsl_to_cedar}
use paac.Policy.Sign.{Crypto, SignedBundle, BundleSigner, content_digest, sign_bundle}
use paac.Policy.Store.{
  PolicyRevision, Disk, empty_disk, Clock, write_active_dsl, read_active_dsl, write_draft,
  head_revision, load_revision, deploy_head, validate_dsl, commit, sign_head,
}

module _ (engine : Cedar) (schema : String) (lib : Crypto) where
  -- Whatever the operators and the drafting tools do to the store, in any order.
  pub data Step (d : Disk) : Disk → Type 0 where
    edit : (dsl : String) → Step d (write_active_dsl dsl d)
    draft : (name dsl : String) → Step d (write_draft name dsl d)
    commits :
        (clock : Clock) (message : String) (r : PolicyRevision) {d' : Disk}
        → commit engine schema clock message d ≡ ok (r, d')
        → Step d d'
    signs :
        (signer : BundleSigner lib) (now : String) (b : SignedBundle) {d' : Disk}
        → sign_head lib signer now d ≡ ok (b, d')
        → Step d d'
    deploys : (r : PolicyRevision) {d' : Disk} → deploy_head d ≡ ok (r, d') → Step d d'

  pub data Reach : Disk → Type 0 where
    start : Reach empty_disk
    next : {d d' : Disk} → Reach d → Step d d' → Reach d'

  -- The bundle is that of this revision.
  pub record Covers (b : SignedBundle) (r : PolicyRevision) : Type 0 where
    pub revision : b.revision ≡ r.revision
    pub cedar : b.cedar ≡ r.cedar
    pub dsl : b.dsl ≡ r.dsl
    pub digest : b.content_sha256 ≡ content_digest lib r.cedar

  -- The revision's DSL text is valid, its Cedar text is the translation, its bundle is its own.
  pub record IsGenuine (r : PolicyRevision) : Type 0 where
    pub policies : List DslPolicy
    pub valid : validate_dsl engine schema r.dsl ≡ ok policies
    pub translated : dsl_to_cedar policies ≡ ok r.cedar
    pub covered : (b : SignedBundle) → r.bundle ≡ some b → Covers b r

  pub record IsSound (d : Disk) : Type 0 where
    pub stored :
        (k : String) (r : PolicyRevision)
        → lookup k d.revisions ≡ some r
        → (r.revision ≡ k) × IsGenuine r
    pub deployed :
        (r : PolicyRevision) → d.deployed ≡ some r → IsGenuine r × (is_none r.bundle ≡ false)

  empty-IsSound : IsSound empty_disk
  unfolding lookup
  empty-IsSound = record { stored = λ k r h. cc; deployed = λ r h. cc }

  -- A revision that is put under its own name keeps what is stored sound.
  stored-insert :
      (k : String) (r : PolicyRevision) (m : IndexMap PolicyRevision)
      → ((j : String) (s : PolicyRevision) → lookup j m ≡ some s → (s.revision ≡ j) × IsGenuine s)
      → r.revision ≡ k
      → IsGenuine r
      → (j : String) (s : PolicyRevision) → lookup j (insert k r m) ≡ some s
      → (s.revision ≡ j) × IsGenuine s
  stored-insert k r m rest named genuine j s h = elim (Bool-cases (str_eq k j)) [
    | inl same ↦
        let new : r ≡ s = ground (arith, lookup-insert k j r m) in
        subst (λ x. (x.revision ≡ j) × IsGenuine x) new (named ∙ (eq_iff k j).0 same, genuine)
    | inr other ↦ rest j s (ground (arith, lookup-insert k j r m))
  ]

  load_revision-eq-ok :
      (k : String) (d : Disk) {r : PolicyRevision}
      → load_revision k d ≡ ok r
      → lookup k d.revisions ≡ some r
  unfolding load_revision
  load_revision-eq-ok k d h = ok_or-eq-ok _ _ h

  sign_bundle-Covers :
      (signer : BundleSigner lib) (now : String) (r : PolicyRevision) (b c : SignedBundle)
      → sign_bundle lib signer r.revision r.cedar r.dsl now ≡ ok b
      → b ≡ c
      → Covers c (record r { bundle = some b })
  unfolding sign_bundle
  sign_bundle-Covers signer now r b c h e =
      let (sig, signed, made) = >>=-eq-ok (signer.sign _) _ h in
      subst (λ x. Covers x (record r { bundle = some b })) (ok-injective made ∙ e)
        (record { revision = refl; cedar = refl; dsl = refl; digest = refl })

  commit-IsSound :
      (clock : Clock) (message : String) (d : Disk) {r : PolicyRevision} {d' : Disk}
      → IsSound d
      → commit engine schema clock message d ≡ ok (r, d')
      → IsSound d'
  unfolding commit
  commit-IsSound clock message d sound h =
      let (ps, valid, more) = >>=-eq-ok (validate_dsl engine schema (read_active_dsl d)) _ h in
      let (text, translated, made) = >>=-eq-ok (dsl_to_cedar ps) _ more in
      subst IsSound (ap (λ p. p.1) (ok-injective made)) (record {
        stored =
            stored-insert _ _ d.revisions sound.stored refl (record {
              policies = ps;
              valid = valid;
              translated = translated;
              covered = λ b e. cc;
            });
        deployed = sound.deployed;
      })

  sign_head-IsSound :
      (signer : BundleSigner lib) (now : String) (d : Disk) {b : SignedBundle} {d' : Disk}
      → IsSound d
      → sign_head lib signer now d ≡ ok (b, d')
      → IsSound d'
  unfolding sign_head
  sign_head-IsSound signer now d sound h =
      let (k, headed, more) = >>=-eq-ok (ok_or _ (head_revision d)) _ h in
      let (r, loaded, more') = >>=-eq-ok (load_revision k d) _ more in
      let (b, signed, made) =
        >>=-eq-ok (sign_bundle lib signer r.revision r.cedar r.dsl now) _ more' in
      let (named, genuine) = sound.stored k r (load_revision-eq-ok k d loaded) in
      subst IsSound (ap (λ p. p.1) (ok-injective made)) (record {
        stored =
            stored-insert k (record r { bundle = some b }) d.revisions sound.stored named
              (record {
                policies = genuine.policies;
                valid = genuine.valid;
                translated = genuine.translated;
                covered = λ c e. sign_bundle-Covers signer now r b c signed (some-injective e);
              });
        deployed = sound.deployed;
      })

  deploy_head-IsSound :
      (d : Disk) {r : PolicyRevision} {d' : Disk}
      → IsSound d
      → deploy_head d ≡ ok (r, d')
      → IsSound d'
  unfolding deploy_head
  deploy_head-IsSound d sound h =
      let (k, headed, more) = >>=-eq-ok (ok_or _ (head_revision d)) _ h in
      let (r, loaded, made) = >>=-eq-ok (load_revision k d) _ more in
      let (signed, same) = reject_if-eq-ok (is_none r.bundle) _ _ made in
      subst IsSound (ap (λ p. p.1) (ok-injective same)) (record {
        stored = sound.stored;
        deployed = λ s e.
            subst (λ x. IsGenuine x × (is_none x.bundle ≡ false)) (some-injective e)
              ((sound.stored k r (load_revision-eq-ok k d loaded)).1, signed);
      })

  Step-IsSound : {d d' : Disk} → Step d d' → IsSound d → IsSound d'
  unfolding write_active_dsl write_draft
  Step-IsSound (edit dsl) s = record { stored = s.stored; deployed = s.deployed }
  Step-IsSound (draft name dsl) s = record { stored = s.stored; deployed = s.deployed }
  Step-IsSound {d} (commits clock message r h) s = commit-IsSound clock message d s h
  Step-IsSound {d} (signs signer now b h) s = sign_head-IsSound signer now d s h
  Step-IsSound {d} (deploys r h) s = deploy_head-IsSound d s h

  -- In every state that the store can reach, each stored revision lies under its own name and is
  -- genuine: its DSL text is valid, its Cedar text is the translation of it, and a bundle it has is
  -- that of its revision, texts and digest. The deployed revision, if there is one, is genuine and
  -- has a bundle.
  pub Reach-IsSound : {d : Disk} → Reach d → IsSound d
  Reach-IsSound start = empty-IsSound
  Reach-IsSound (next r st) = Step-IsSound st (Reach-IsSound r)

-- The name of a new revision has no white space round it.
abbrev pub IsTrimmedName : Clock → Type 0
IsTrimmedName clock = (a b c : String) → trim (clock.revision_id a b c) ≡ clock.revision_id a b c

-- HEAD names the revision and it is stored under its name.
abbrev pub IsHead : PolicyRevision → Disk → Type 0
IsHead r d = (head_revision d ≡ some r.revision) × (load_revision r.revision d ≡ ok r)

module _ (engine : Cedar) (schema : String) (lib : Crypto) where
  pub commit-IsHead :
      (clock : Clock) (message : String) (d : Disk) {r : PolicyRevision} {d' : Disk}
      → IsTrimmedName clock
      → commit engine schema clock message d ≡ ok (r, d')
      → IsHead r d' × (r.bundle ≡ none)
  unfolding commit head_revision load_revision
  commit-IsHead clock message d named h =
      let (ps, valid, more) = >>=-eq-ok (validate_dsl engine schema (read_active_dsl d)) _ h in
      let (text, translated, made) = >>=-eq-ok (dsl_to_cedar ps) _ more in
      subst (λ p. IsHead p.0 p.1 × (p.0.bundle ≡ none)) (ok-injective made)
        ((ap some (named _ _ _), simp (lookup-insert, eq_refl)), refl)

  -- With a head at hand, `sign_head` is one call of `sign_bundle` and a write.
  pub sign_head-bind :
      (signer : BundleSigner lib) (now : String) (r : PolicyRevision) (d : Disk)
      → IsHead r d
      → sign_head lib signer now d ≡ (do
        bundle ← sign_bundle lib signer r.revision r.cedar r.dsl now
        ok (
          bundle,
          record d {
            revisions = insert r.revision (record r { bundle = some bundle }) d.revisions;
          },
        ))
  unfolding sign_head
  sign_head-bind signer now r d (headed, loaded) = rw headed (rw loaded)

  sign_head-IsHead :
      (signer : BundleSigner lib) (now : String) (r : PolicyRevision) (d : Disk) {b : SignedBundle}
      {d' : Disk}
      → IsHead r d
      → sign_head lib signer now d ≡ ok (b, d')
      → IsHead (record r { bundle = some b }) d'
  unfolding head_revision load_revision
  sign_head-IsHead signer now r d head h =
      let (b, signed, made) =
        >>=-eq-ok (sign_bundle lib signer r.revision r.cedar r.dsl now) _
          (sym (sign_head-bind signer now r d head) ∙ h) in
      subst (λ p. IsHead (record r { bundle = some p.0 }) p.1) (ok-injective made)
        (head.0, simp (lookup-insert, eq_refl))

  -- If the names of revisions have no white space round them, a commit alone is not deployed: the
  -- store refuses it until it is signed.
  pub deploy_head-commit :
      (clock : Clock) (message : String) (d d' : Disk) (r : PolicyRevision)
      → IsTrimmedName clock
      → commit engine schema clock message d ≡ ok (r, d')
      → deploy_head d' ≡ err (store "HEAD is not signed; run policy sign first")
  unfolding deploy_head
  deploy_head-commit clock message d d' r named h =
      let ((headed, loaded), unsigned) = commit-IsHead clock message d named h in
      rw headed (rw loaded (rw unsigned))

  -- If the names of revisions have no white space round them, what is committed and then signed is
  -- deployed: the deployment is the committed revision with the new bundle.
  pub deploy_head-sign_head :
      (clock : Clock) (message : String) (signer : BundleSigner lib) (now : String) (d d1 d2 : Disk)
      (r : PolicyRevision) (b : SignedBundle)
      → IsTrimmedName clock
      → commit engine schema clock message d ≡ ok (r, d1)
      → sign_head lib signer now d1 ≡ ok (b, d2)
      → deploy_head d2
        ≡ ok (
          record r { bundle = some b },
          record d2 { deployed = some (record r { bundle = some b }) },
        )
  unfolding deploy_head
  deploy_head-sign_head clock message signer now d d1 d2 r b named h k =
      let (head, unsigned) = commit-IsHead clock message d named h in
      let (headed, loaded) = sign_head-IsHead signer now r d1 head k in rw headed (rw loaded)
