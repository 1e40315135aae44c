-- ===== src/Identity/Drafts/Laws.antt =====
-- What crates/authz-identity/src drafts from the groups of a snapshot is read by the parser of
-- crates/authz-policy/src/dsl.rs as the policies that are meant.
use Prim.Native.String.{◌∷◌}
use mathlib.Core.Option
use paac.Prelude.{
  ℕ, ◌<◌, ◌-◌, Char, leb, ascii, upper_char, IsScalar-below, String, ◌^^◌, replace_char,
  to_ascii_uppercase, ^^_assoc, ^^-nil, Bool, true, false, ◌&&◌, not, ◌≡◌, refl, sym, ap, ◌∙◌, List,
  ◌++◌, All, ok, is_empty, is_whitespace, is_char, trim, trim_start_by, trim_end_by,
  strip_suffix_char, split_by, drop_empty, lines, contains, map, eqb, code, if◌then◌else◌,
  Bool-cases, inl, inr, arith,
}
use paac.Policy.Dsl.{DslPolicy, strip_comment, parse_dsl}
use paac.Identity.Model.{Group, IdentitySnapshot}
use paac.Identity.Drafts.{
  Style, draft_groups, idp_style, discovered_style, ldap_style, default_drafts_from_groups,
  draft_policies_from_groups, generate_auto_discovered_draft_policies,
}
use paac.Identity.Drafts.Lines.{lacks, lacks-^^, lines-line, framed, lines-framed}
use paac.Identity.Drafts.Blocks.{IsOneLine}
use paac.Identity.Drafts.Texts.{
  AddsText, AddsText-append, AddsText-groups, Adds-blank, parse_dsl-AddsText, IsLined, IsNamed,
  draft_policies,
}
use paac.Identity.Drafts.Names.{known, between}
use paac.Identity.Drafts.Roles.{IsRoleName, role-IsNamed, upper-IsRoleName, underscored-IsRoleName}

ldap_style-IsLined : IsLined ldap_style
unfolding lacks
ldap_style-IsLined = record {
  self =
      λ gid h. between "draft_group_" gid "_read_profile" (known _ refl refl) h (known _ refl refl);
  protect = λ gid h. known _ refl refl;
  payroll = known _ refl refl;
}

discovered_style-IsLined : IsLined discovered_style
unfolding lacks
discovered_style-IsLined = record {
  self = λ gid h.
      between "auto_discovered_" gid "_self_profile" (known _ refl refl) h (known _ refl refl);
  protect = λ gid h.
      between "auto_discovered_" gid "_protect_exec_expense" (known _ refl refl) h
        (known _ refl refl);
  payroll = known _ refl refl;
}

idp_style-IsLined : (idp : String) → IsOneLine idp → IsLined (idp_style idp)
unfolding lacks
idp_style-IsLined idp k = record {
  self = λ gid h.
      between "draft_" idp ("_" ^^ (gid ^^ "_self_profile")) (known _ refl refl) k
        (between "_" gid "_self_profile" (known _ refl refl) h (known _ refl refl));
  protect = λ gid h.
      between "draft_" idp ("_" ^^ (gid ^^ "_protect_exec_expense")) (known _ refl refl) k
        (between "_" gid "_protect_exec_expense" (known _ refl refl) h (known _ refl refl));
  payroll = known _ refl refl;
}

-- What stands above the drafts: comments and blank lines.
AddsText-comment :
    (l : String)
    → lacks 10 l ≡ true
    → strip_suffix_char 13 l ≡ Option.none
    → is_empty (trim (strip_comment l)) ≡ true
    → AddsText (l ^^ "\n") List.[]
unfolding ◌^^◌
AddsText-comment l h last blank = record {
  its_lines = List.◌∷◌ l List.[];
  split = λ rest. rw (^^_assoc l "\n" rest) (lines-line l "\n" rest refl h last);
  adds = Adds-blank l blank;
}

between-comments :
    (l m s : String) (qs : List DslPolicy)
    → AddsText (l ^^ "\n") List.[]
    → AddsText (m ^^ "\n") List.[]
    → AddsText s qs
    → AddsText ((l ^^ "\n") ^^ ((m ^^ "\n") ^^ ("\n" ^^ s))) qs
unfolding lacks strip_suffix_char trim strip_comment paac.Prelude.before_char ◌^^◌
between-comments l m s qs a b c = AddsText-append (l ^^ "\n") _ List.[] qs a (
    AddsText-append (m ^^ "\n") _ List.[] qs b
      (AddsText-append "\n" s List.[] qs (AddsText-comment "" refl refl refl) c))

All-IsNamed :
    (style : Style) (gs : List Group)
    → ((s : String) → IsRoleName s → IsRoleName (style.gid s))
    → All (λ g. IsRoleName g.name) gs
    → All (IsNamed style) gs
All-IsNamed style List.[] keeps h = tt
All-IsNamed style (List.◌∷◌ g gs) keeps h =
    (role-IsNamed style g (keeps g.name h.0), All-IsNamed style gs keeps h.1)

-- The first line above the drafts of a provider.
provider_line : String → String
provider_line idp =
    "# DRAFT policies from "
    ^^ (idp ^^ " sync — review, commit, sign, deploy. Never auto-applied.\n")

AddsText-provider : (idp : String) → IsOneLine idp → AddsText (provider_line idp) List.[]
unfolding provider_line ◌^^◌ lacks trim strip_comment paac.Prelude.before_char
AddsText-provider idp h =
    let words : String = " sync — review, commit, sign, deploy. Never auto-applied" in
    let line : String = framed "# DRAFT policies from " (idp ^^ words) "." in
    record {
      its_lines = List.◌∷◌ line List.[];
      split = λ rest.
          rw (^^_assoc idp " sync — review, commit, sign, deploy. Never auto-applied.\n" rest) (
            rw (sym (^^_assoc idp words ("." ∷ ("\n" ∷ rest)))) (
              lines-framed "# DRAFT policies from " (idp ^^ words) "." "\n" rest refl refl
                (lacks-^^ 10 idp words h.no_break refl) refl refl));
      adds = Adds-blank line refl;
    }

module _ (snapshot : IdentitySnapshot) (named : All (λ g. IsRoleName g.name) snapshot.groups) where
  parse_dsl-ldap :
      parse_dsl (draft_policies_from_groups snapshot)
      ≡ ok (draft_policies ldap_style snapshot.groups)
  unfolding draft_policies_from_groups ◌^^◌ lacks strip_suffix_char trim strip_comment
      paac.Prelude.before_char
  parse_dsl-ldap = parse_dsl-AddsText _ _ (
      between-comments "# DRAFT policies generated from LDAP group sync"
        "# Review and commit manually — never auto-deployed."
        (draft_groups ldap_style snapshot.groups) _
        (AddsText-comment "# DRAFT policies generated from LDAP group sync" refl refl refl)
        (AddsText-comment "# Review and commit manually — never auto-deployed." refl refl refl)
        (AddsText-groups ldap_style snapshot.groups ldap_style-IsLined
          (All-IsNamed ldap_style snapshot.groups upper-IsRoleName named)))

  parse_dsl-discovered :
      parse_dsl (generate_auto_discovered_draft_policies snapshot)
      ≡ ok (draft_policies discovered_style snapshot.groups)
  unfolding generate_auto_discovered_draft_policies ◌^^◌ lacks strip_suffix_char trim strip_comment
      paac.Prelude.before_char
  parse_dsl-discovered = parse_dsl-AddsText _ _ (
      between-comments
        "# Auto-Discovered baseline policies across LDAP, AD, Entra ID, and Cognito stores."
        "# Review and commit manually — never auto-deployed."
        (draft_groups discovered_style snapshot.groups) _
        (AddsText-comment
          "# Auto-Discovered baseline policies across LDAP, AD, Entra ID, and Cognito stores." refl
          refl refl)
        (AddsText-comment "# Review and commit manually — never auto-deployed." refl refl refl)
        (AddsText-groups discovered_style snapshot.groups discovered_style-IsLined
          (All-IsNamed discovered_style snapshot.groups underscored-IsRoleName named)))

  parse_dsl-idp :
      (idp : String)
      → IsOneLine idp
      → parse_dsl (default_drafts_from_groups idp snapshot)
        ≡ ok (draft_policies (idp_style idp) snapshot.groups)
  unfolding default_drafts_from_groups ◌^^◌ lacks strip_suffix_char trim strip_comment
      paac.Prelude.before_char provider_line
  parse_dsl-idp idp one_line =
      let all =
        AddsText-append (provider_line idp) ("\n" ^^ draft_groups (idp_style idp) snapshot.groups)
          List.[] (draft_policies (idp_style idp) snapshot.groups) (AddsText-provider idp one_line)
          (AddsText-append "\n" (draft_groups (idp_style idp) snapshot.groups) List.[] _
            (AddsText-comment "" refl refl refl)
            (AddsText-groups (idp_style idp) snapshot.groups (idp_style-IsLined idp one_line)
              (All-IsNamed (idp_style idp) snapshot.groups underscored-IsRoleName named))) in
      rw
        (sym (
          ^^_assoc idp " sync — review, commit, sign, deploy. Never auto-applied.\n"
            ("\n" ^^ draft_groups (idp_style idp) snapshot.groups)))
        (parse_dsl-AddsText _ _ all)

-- What the three generators draft from a snapshot is read as one policy for each group, whose one role is
-- the group's name as the generator writes it and which lets it read its own profile, with one on the
-- expenses of executives for an executive group and one on the export of salaries for a payroll group,
-- in the order of the groups: where the provider's name has no line break and no comment sign, and a
-- group's name is not empty, has no white space at its ends, no line break, no comment sign, no comma
-- and no bracket.
pub parse_dsl-drafts :
    (snapshot : IdentitySnapshot) (idp : String)
    → IsOneLine idp
    → All (λ g. IsRoleName g.name) snapshot.groups
    → (parse_dsl (draft_policies_from_groups snapshot)
        ≡ ok (draft_policies ldap_style snapshot.groups))
      × (parse_dsl (default_drafts_from_groups idp snapshot)
          ≡ ok (draft_policies (idp_style idp) snapshot.groups))
      × (parse_dsl (generate_auto_discovered_draft_policies snapshot)
          ≡ ok (draft_policies discovered_style snapshot.groups))
parse_dsl-drafts snapshot idp one_line named = (
  parse_dsl-ldap snapshot named,
  parse_dsl-idp snapshot named idp one_line,
  parse_dsl-discovered snapshot named,
)
