-- ===== src/Cli/Discovery.antt =====
-- The command `identity discover` of crates/authz-cli/src/main.rs, with the parser of
-- crates/authz-policy for what it drafts.

use paac.Prelude.{
  String, true, some, List, [], ◌∷◌, All, ok, lookup, insert, lookup-insert, ◌≡◌, refl,
}
use paac.Policy.Dsl.{parse_dsl}
use paac.Identity.Model.{Group, IdentitySnapshot}
use paac.Identity.Ldap.Demo.{named_group}
use paac.Identity.Providers.{mock_directory_snapshot}
use paac.Identity.Drafts.{discovered_style, generate_auto_discovered_draft_policies}
use paac.Identity.Drafts.Blocks.{IsOneLine}
use paac.Identity.Drafts.Roles.{IsRoleName, is_role_name, is_role_name-IsRoleName}
use paac.Identity.Drafts.Texts.{draft_policies}
use paac.Identity.Drafts.Laws.{parse_dsl-drafts}
use paac.Identity.Discover.{discover_all_stores}
use paac.Cli.State.{Paths, Libraries, Moment, World}
use paac.Cli.Directory.{identity_discover}
use paac.Cli.Main.{identity_cmd, discover, run}

-- The groups that the three stores have, each with the store that gave it first.
abbrev pub found_groups : List Group
found_groups =
    named_group "HR" ("user:hr-head" ∷ []) "active_directory"
    ∷ (named_group "EXECUTIVE" ("employee:CEO" ∷ []) "active_directory"
        ∷ (named_group "PAYROLL" [] "active_directory" ∷ []))

module _ (lib : Libraries) (paths : Paths) (moment : Moment lib) where
  -- The snapshot of the stores is that of the first one, since all have the same members.
  abbrev found_snapshot : IdentitySnapshot
  found_snapshot = mock_directory_snapshot "active_directory" moment.clock.rfc3339

  discovered :
      discover_all_stores lib.ldap lib.http moment.clock.rfc3339
      ≡ ok (found_snapshot, generate_auto_discovered_draft_policies found_snapshot)
  unfolding discover_all_stores paac.Identity.Providers.sync_ad paac.Identity.Providers.sync_entra
      paac.Identity.Providers.sync_cognito mock_directory_snapshot lookup
      generate_auto_discovered_draft_policies insert
  discovered = refl

  named : All (λ g. IsRoleName g.name) found_groups
  unfolding is_role_name paac.Prelude.is_whitespace
  named = (
    is_role_name-IsRoleName _ refl,
    (is_role_name-IsRoleName _ refl, (is_role_name-IsRoleName _ refl, tt)),
  )

  ad_line : IsOneLine "ad"
  unfolding paac.Identity.Drafts.Lines.lacks
  ad_line = record { no_break = refl; no_comment = refl }

  -- `identity discover` with drafts succeeds on whatever files: it leaves the snapshot of the stores, and
  -- the draft "auto-discovered", which the parser of policies reads as those drafted for the groups of
  -- the stores.
  pub run-discover :
      (w : World)
      → ((run lib paths moment (identity_cmd (discover true)) w).0 ≡ ok 0)
        × ((run lib paths moment (identity_cmd (discover true)) w).1.snapshot
            ≡ some (ok (mock_directory_snapshot "active_directory" moment.clock.rfc3339)))
        × ((dsl : String) × (lookup "auto-discovered"
                (run lib paths moment (identity_cmd (discover true)) w).1.disk.drafts
              ≡ some dsl)
            × (parse_dsl dsl ≡ ok (draft_policies discovered_style found_groups)))
  unfolding run paac.Cli.Main.identity_arm identity_discover paac.Policy.Store.write_draft
      mock_directory_snapshot paac.Cli.Directory.draft paac.Cli.Directory.save_snapshot
  run-discover w = rw discovered (
    refl,
    refl,
    (
      generate_auto_discovered_draft_policies found_snapshot,
      lookup-insert "auto-discovered" "auto-discovered" _ w.disk.drafts,
      (parse_dsl-drafts found_snapshot "ad" ad_line named).2,
    ),
  )
