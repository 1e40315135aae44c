-- ===== src/Identity/Drafts.antt =====
-- crates/authz-identity/src/adapters.rs and idp.rs: the DSL that is drafted from the groups of a
-- snapshot. The three generators differ in their header, the names of the policies, the treatment of
-- spaces and the groups that they take for executive ones.
pub mod Lines
pub mod Blocks
pub mod Steps
pub mod Adds
pub mod Texts
pub mod Names
pub mod Roles
pub mod Laws
use paac.Prelude.{
  String, ◌^^◌, Bool, ◌||◌, List, [], ◌∷◌, contains, replace_char, to_ascii_uppercase, str_eq,
  if◌then◌else◌,
}
use paac.Identity.Model.{Group, IdentitySnapshot}

-- What a generator writes of its own.
pub record Style : Type 0 where
  pub gid : String → String
  pub self_profile : String → String
  pub is_executive : String → Bool
  pub protect_expense : String → String
  pub payroll_export : String

unfoldable pub self_profile_block : String → String → String
self_profile_block name gid =
    "policy \""
    ^^ (name
        ^^ ("\"\nwhen role in ["
            ^^ (gid ^^ "]\nallow READ EMPLOYEE_PROFILE\nwhere subject == SELF\n\n")))

unfoldable pub protect_block : String → String
protect_block name =
    "policy \""
    ^^ (name
        ^^ "\"\ndeny READ TRAVEL_EXPENSE\nwhere subject in EXECUTIVE_GROUP\nunless role in [CFO, CEO]\n\n")

unfoldable pub payroll_block : String → String
payroll_block name =
    "policy \"" ^^ (name ^^ "\"\ndeny EXPORT SALARY\nunless role == PAYROLL_ADMIN\n\n")

-- One round of the loop over the groups.
unfoldable pub group_blocks : Style → Group → String
unfolding self_profile_block protect_block payroll_block
group_blocks style g =
    let gid = style.gid g.name in
    self_profile_block (style.self_profile gid) gid
    ^^ ((if style.is_executive gid then protect_block (style.protect_expense gid) else "")
        ^^ (if contains gid "PAYROLL" then payroll_block style.payroll_export else ""))

unfoldable pub draft_groups : Style → List Group → String
unfolding group_blocks
draft_groups style [] = ""
draft_groups style (g ∷ gs) = group_blocks style g ^^ draft_groups style gs

-- `name.to_ascii_uppercase().replace(' ', "_")`
unfoldable pub underscored : String → String
underscored name = replace_char 32 "_" (to_ascii_uppercase name)

unfoldable pub exec_or_finance : String → Bool
exec_or_finance gid = contains gid "EXEC" || contains gid "FINANCE"

abbrev pub idp_style : String → Style
idp_style idp = record {
  gid = underscored;
  self_profile = λ gid. "draft_" ^^ (idp ^^ ("_" ^^ (gid ^^ "_self_profile")));
  is_executive = exec_or_finance;
  protect_expense = λ gid. "draft_" ^^ (idp ^^ ("_" ^^ (gid ^^ "_protect_exec_expense")));
  payroll_export = "draft_payroll_export";
}

unfoldable pub default_drafts_from_groups : String → IdentitySnapshot → String
unfolding draft_groups
default_drafts_from_groups idp snapshot =
    "# DRAFT policies from "
    ^^ (idp
        ^^ (" sync — review, commit, sign, deploy. Never auto-applied.\n\n"
            ^^ draft_groups (idp_style idp) snapshot.groups))

abbrev pub discovered_style : Style
discovered_style = record {
  gid = underscored;
  self_profile = λ gid. "auto_discovered_" ^^ (gid ^^ "_self_profile");
  is_executive = exec_or_finance;
  protect_expense = λ gid. "auto_discovered_" ^^ (gid ^^ "_protect_exec_expense");
  payroll_export = "auto_discovered_payroll_salary_export";
}

unfoldable pub generate_auto_discovered_draft_policies : IdentitySnapshot → String
unfolding draft_groups
generate_auto_discovered_draft_policies snapshot =
    "# Auto-Discovered baseline policies across LDAP, AD, Entra ID, and Cognito stores.\n"
    ^^ ("# Review and commit manually — never auto-deployed.\n\n"
        ^^ draft_groups discovered_style snapshot.groups)

abbrev pub ldap_style : Style
ldap_style = record {
  gid = to_ascii_uppercase;
  self_profile = λ gid. "draft_group_" ^^ (gid ^^ "_read_profile");
  is_executive = λ gid. contains gid "EXECUTIVE" || str_eq gid "EXECUTIVE";
  protect_expense = λ gid. "draft_protect_executive_expenses";
  payroll_export = "draft_payroll_salary_export";
}

unfoldable pub draft_policies_from_groups : IdentitySnapshot → String
unfolding draft_groups
draft_policies_from_groups snapshot =
    "# DRAFT policies generated from LDAP group sync\n"
    ^^ ("# Review and commit manually — never auto-deployed.\n\n"
        ^^ draft_groups ldap_style snapshot.groups)
