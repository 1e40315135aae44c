-- ===== src/Examples/Directory.antt =====
-- Tests of the directories in crates/authz-identity/src: the drafts and the merging of snapshots.
use paac.Prelude.{none, [], ◌∷◌, ◌≡◌, refl, ok, All}
use paac.Identity.Model.{Group, IdentitySnapshot}
use paac.Policy.Dsl.{parse_dsl}
use paac.Identity.Drafts.{
  ldap_style, idp_style, discovered_style, draft_policies_from_groups, default_drafts_from_groups,
  generate_auto_discovered_draft_policies,
}
use paac.Identity.Drafts.Lines.{lacks}
use paac.Identity.Drafts.Blocks.{IsOneLine}
use paac.Identity.Drafts.Roles.{IsRoleName, is_role_name, is_role_name-IsRoleName}
use paac.Identity.Drafts.Texts.{draft_policies}
use paac.Identity.Drafts.Laws.{parse_dsl-drafts}
use paac.Identity.Ldap.Demo.{person}
use paac.Identity.Discover.{Merged, final_snapshot}
use paac.Identity.Discover.Laws.{IsDeduplicated, final_snapshot-IsDeduplicated}

abbrev finance : Group
finance = record { id = "g1"; name = "Finance Exec"; members = []; source = "entra_id" }

abbrev payroll : Group
payroll = record { id = "g2"; name = "Payroll"; members = []; source = "entra_id" }

abbrev snapshot : IdentitySnapshot
snapshot = record {
  users = [];
  groups = finance ∷ (payroll ∷ []);
  relationships = [];
  synced_at = none;
}

entra-IsOneLine : IsOneLine "entra"
unfolding lacks
entra-IsOneLine = record { no_break = refl; no_comment = refl }

named : All (λ g. IsRoleName g.name) snapshot.groups
unfolding is_role_name paac.Prelude.is_whitespace
named = (is_role_name-IsRoleName _ refl, (is_role_name-IsRoleName _ refl, tt))

parse_dsl-drafts_example :
    (parse_dsl (draft_policies_from_groups snapshot)
      ≡ ok (draft_policies ldap_style (finance ∷ (payroll ∷ []))))
    × (parse_dsl (default_drafts_from_groups "entra" snapshot)
        ≡ ok (draft_policies (idp_style "entra") (finance ∷ (payroll ∷ []))))
    × (parse_dsl (generate_auto_discovered_draft_policies snapshot)
        ≡ ok (draft_policies discovered_style (finance ∷ (payroll ∷ []))))
parse_dsl-drafts_example = parse_dsl-drafts snapshot "entra" entra-IsOneLine named

-- Two stores know the same user under different names.
abbrev merged : Merged
merged = record {
  users =
      person "user:hr-head" "Alex HR" "hr@example.com" "HR_HEAD" "HR"
      ∷ (person "user:hr-head" "Alex" "alex@example.com" "EMPLOYEE" "HR" ∷ []);
  groups = finance ∷ (payroll ∷ (finance ∷ []));
  relationships = [];
}

final_snapshot-IsDeduplicated_example :
    IsDeduplicated (λ u. u.id) merged.users (final_snapshot merged "today").users
    × IsDeduplicated (λ g. g.id) merged.groups (final_snapshot merged "today").groups
final_snapshot-IsDeduplicated_example = final_snapshot-IsDeduplicated merged "today"
