-- ===== src/Cli/Moves.antt =====
-- What the commands of crates/authz-cli/src/main.rs do to the policy store.

use paac.Prelude.{
  String, Bool, true, false, List, [], ◌∷◌, Result, ok, err, panic, has, ◌≡◌, refl, if◌then◌else◌,
}
use paac.Policy.Store.{Disk, write_draft}
use paac.Identity.Model.{IdentitySnapshot}
use paac.Identity.Ldap.{write_drafts_to_store}
use paac.Cli.State.{Paths, CliError, Libraries, Moment, World, Cli, after, print_all, put_disk}
use paac.Cli.Directory.{
  draft, save_snapshot, provider_drafts, ldap_drafts, identity_discover, sync_source, after_sync,
  identity_sync,
}

-- A relation between disks that holds of a disk and itself, is transitive, and holds where a draft is
-- written.
pub record AllowsDrafts (R : Disk → Disk → Type 0) : Type 0 where
  pub same : (d : Disk) → R d d
  pub then_ : {d e f : Disk} → R d e → R e f → R d f
  pub drafts : (name dsl : String) (d : Disk) → R d (write_draft name dsl d)

module _ (R : Disk → Disk → Type 0) (allows : AllowsDrafts R) where
  -- What a command does to the disk, on every path through it.
  abbrev pub Moves : {A : Type 0} → Cli A → Type 0
  Moves m = (w : World) → R w.disk (m w).1.disk

  pub after-Moves :
      {A B : Type 0} (r : Result CliError A × World) (next : A → Cli B) (d : Disk)
      → R d r.1.disk
      → ((a : A) → Moves (next a))
      → R d (after r next).1.disk
  after-Moves (ok a, w) next d h k = allows.then_ h (k a w)
  after-Moves (err e, w) next d h k = h
  after-Moves (panic, w) next d h k = h

  draft-Moves : (name dsl : String) → Moves (draft name dsl)
  unfolding draft
  draft-Moves name dsl w = allows.drafts name dsl w.disk

  pub if-Moves :
      {A : Type 0} (b : Bool) (m n : Cli A)
      → Moves m
      → Moves n
      → Moves (λ w. (if b then m else n) w)
  if-Moves true m n h k = h
  if-Moves false m n h k = k

  pub put_disk-Moves :
      {A : Type 0} (w : World) (r : Result CliError (A × Disk))
      → ((a : A) (e : Disk) → r ≡ ok (a, e) → R w.disk e)
      → R w.disk (put_disk w r).1.disk
  put_disk-Moves w (ok (a, e)) h = h a e refl
  put_disk-Moves w (err e) h = allows.same w.disk
  put_disk-Moves w panic h = allows.same w.disk

  pub print_all-Moves : (lines : List String) → Moves (print_all lines)
  unfolding print_all
  print_all-Moves [] w = allows.same w.disk
  print_all-Moves (line ∷ more) w = print_all-Moves more _

  provider_drafts-Moves :
      (drafts : Bool) (idp name : String) (snap : IdentitySnapshot)
      → Moves (provider_drafts drafts idp name snap)
  unfolding provider_drafts
  provider_drafts-Moves drafts idp name snap w =
      if-Moves drafts _ _ (λ u. allows.drafts _ _ u.disk) (λ u. allows.same u.disk) w

  ldap_drafts-Moves : (snap : IdentitySnapshot) → Moves (ldap_drafts snap)
  unfolding ldap_drafts write_drafts_to_store
  ldap_drafts-Moves snap w = allows.drafts _ _ w.disk

  module _ (lib : Libraries) (paths : Paths) (moment : Moment lib) where
    pub identity_discover-Moves :
        (drafts : Bool) → Moves (identity_discover lib paths moment drafts)
    unfolding identity_discover save_snapshot
    identity_discover-Moves drafts w =
        after-Moves _ _ w.disk (allows.same w.disk) (λ both v.
          if-Moves drafts _ _ (λ u. allows.drafts _ _ u.disk) (λ u. allows.same u.disk) _)

    -- An arm that synchronises and may write drafts.
    provider-Moves :
        (snap : Result CliError IdentitySnapshot) (drafts : Bool) (idp name : String) (w : World)
        → R w.disk
            (after
              (snap, w)
              (λ s v. after (provider_drafts drafts idp name s v) (λ _ u. (ok s, u)))).1.disk
    provider-Moves snap drafts idp name w =
        after-Moves (snap, w)
          (λ s v. after (provider_drafts drafts idp name s v) (λ _ u. (ok s, u))) w.disk
          (allows.same w.disk)
          (λ s v.
            after-Moves (provider_drafts drafts idp name s v) (λ _ u. (ok s, u)) v.disk
              (provider_drafts-Moves drafts idp name s v) (λ _ u. allows.same u.disk))

    sync_source-Moves :
        (source : String) (drafts : Bool) → Moves (sync_source lib paths moment source drafts)
    unfolding sync_source
    sync_source-Moves source drafts w =
        if-Moves (has ("ldap" ∷ ("mock-ldap" ∷ [])) source) _ _ (λ u. allows.same u.disk)
          (λ u.
            if-Moves (has ("ad" ∷ ("active_directory" ∷ [])) source) _ _
              (provider-Moves _ drafts "ad" "ad-sync")
              (λ u.
                if-Moves (has ("entra" ∷ ("entra_id" ∷ [])) source) _ _
                  (provider-Moves _ drafts "entra" "entra-sync")
                  (λ u.
                    if-Moves (has ("cognito" ∷ []) source) _ _
                      (provider-Moves _ drafts "cognito" "cognito-sync")
                      (λ u.
                        if-Moves (has ("local" ∷ []) source) _ _ (λ v. allows.same v.disk)
                          (λ v. allows.same v.disk) u)
                      u)
                  u)
              u)
          w

    after_sync-Moves :
        (source : String) (drafts : Bool) (snap : IdentitySnapshot)
        → Moves (after_sync lib paths moment source drafts snap)
    unfolding after_sync save_snapshot
    after_sync-Moves source drafts snap w =
        if-Moves drafts _ _
          (λ u. after-Moves _ _ u.disk (ldap_drafts-Moves snap u) (λ _ v. allows.same v.disk))
          (λ u. allows.same u.disk) _

    pub identity_sync-Moves :
        (source : String) (drafts : Bool) → Moves (identity_sync lib paths moment source drafts)
    unfolding identity_sync
    identity_sync-Moves source drafts w =
        if-Moves (has ("all" ∷ ("discover" ∷ [])) source) _ _ (identity_discover-Moves drafts)
          (λ u.
            after-Moves _ _ u.disk (sync_source-Moves source drafts u)
              (after_sync-Moves source drafts))
          w
