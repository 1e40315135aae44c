-- ===== src/Identity/Drafts/Blocks.antt =====
-- The blocks of crates/authz-identity/src's generators under the parser of
-- crates/authz-policy/src/dsl.rs: each one adds its policy to those that are read.
use paac.Prelude.{
  String, ◌^^◌, ^^_assoc, true, ◌≡◌, refl, ap, ◌∙◌, none, List, [], ◌∷◌, lines, strip_suffix_char,
}
use paac.Policy.Dsl.{DslPolicy, allow, deny, parse_list}
use paac.Identity.Drafts.{self_profile_block, protect_block, payroll_block}
use paac.Identity.Drafts.Lines.{lacks, lines-framed, lines-line}

-- A text that can stand in a line before its comment.
pub record IsOneLine (s : String) : Type 0 where
  pub no_break : lacks 10 s ≡ true
  pub no_comment : lacks 35 s ≡ true

-- The roles that the parser reads between brackets.
abbrev pub roles_of : String → List String
roles_of gid = parse_list ("[" ^^ (gid ^^ "]"))

abbrev pub header_line : String → String
header_line name = "policy \"" ^^ (name ^^ "\"")

abbrev pub role_line : String → String
role_line gid = "when role in [" ^^ (gid ^^ "]")

abbrev pub allow_line : String
allow_line = "allow READ EMPLOYEE_PROFILE"

-- The policies that the three blocks stand for, the first one with roles.
abbrev pub self_profile_policy : String → String → List String → DslPolicy
self_profile_policy name gid roles = record {
  id = name;
  effect = allow;
  action = "READ";
  resource = "EMPLOYEE_PROFILE";
  when_roles = roles;
  where_subjects = "SELF" ∷ [];
  unless_roles = [];
  where_subject_groups = [];
  raw =
      ((header_line name ^^ ("\n" ^^ role_line gid)) ^^ "\nallow READ EMPLOYEE_PROFILE")
      ^^ "\nwhere subject == SELF";
}

abbrev pub protect_policy : String → DslPolicy
protect_policy name = record {
  id = name;
  effect = deny;
  action = "READ";
  resource = "TRAVEL_EXPENSE";
  when_roles = [];
  where_subjects = [];
  unless_roles = "CFO" ∷ ("CEO" ∷ []);
  where_subject_groups = "EXECUTIVE" ∷ [];
  raw =
      ((header_line name ^^ "\ndeny READ TRAVEL_EXPENSE") ^^ "\nwhere subject in EXECUTIVE_GROUP")
      ^^ "\nunless role in [CFO, CEO]";
}

abbrev pub payroll_policy : String → DslPolicy
payroll_policy name = record {
  id = name;
  effect = deny;
  action = "EXPORT";
  resource = "SALARY";
  when_roles = [];
  where_subjects = [];
  unless_roles = "PAYROLL_ADMIN" ∷ [];
  where_subject_groups = [];
  raw = (header_line name ^^ "\ndeny EXPORT SALARY") ^^ "\nunless role == PAYROLL_ADMIN";
}

-- The lines of a block, in front of what follows it.
lines-header :
    (name s : String)
    → IsOneLine name
    → lines ("policy \"" ^^ (name ^^ ("\"\n" ^^ s))) ≡ header_line name ∷ lines s
unfolding ◌^^◌ lacks
lines-header name s named =
    lines-framed "policy \"" name "\"" "\n" s refl refl named.no_break refl refl

-- A line that is known, in front of lines that are.
pub lines-known :
    (l s : String) {ls : List String}
    → lacks 10 l ≡ true
    → strip_suffix_char 13 l ≡ none
    → lines s ≡ ls
    → lines (l ^^ ("\n" ^^ s)) ≡ l ∷ ls
unfolding ◌^^◌
lines-known l s h last more = lines-line l "\n" s refl h last ∙ ap (λ ls. l ∷ ls) more

pub lines-self_profile :
    (name gid s : String)
    → IsOneLine name
    → IsOneLine gid
    → lines (self_profile_block name gid ^^ s)
      ≡ header_line name
        ∷ (role_line gid ∷ (allow_line ∷ ("where subject == SELF" ∷ ("" ∷ lines s))))
unfolding self_profile_block ◌^^◌ lacks strip_suffix_char
lines-self_profile name gid s named h =
    let after_role : String = allow_line ^^ ("\n" ^^ ("where subject == SELF" ^^ ("\n\n" ^^ s))) in
    let known =
      lines-known allow_line _ refl refl
        (lines-known "where subject == SELF" _ refl refl (lines-known "" s refl refl refl)) in
    let role =
      lines-framed "when role in [" gid "]" "\n" after_role refl refl h.no_break refl refl in
    rw (^^_assoc name _ s) (
      rw (^^_assoc gid _ s) (
        lines-header name _ named
        ∙ ap (λ ls. header_line name ∷ ls) (role ∙ ap (λ ls. role_line gid ∷ ls) known)))

pub lines-protect :
    (name s : String)
    → IsOneLine name
    → lines (protect_block name ^^ s)
      ≡ header_line name
        ∷ ("deny READ TRAVEL_EXPENSE"
            ∷ ("where subject in EXECUTIVE_GROUP" ∷ ("unless role in [CFO, CEO]" ∷ ("" ∷ lines s))))
unfolding protect_block ◌^^◌ lacks strip_suffix_char
lines-protect name s named =
    let known = lines-known "deny READ TRAVEL_EXPENSE" _ refl refl (
      lines-known "where subject in EXECUTIVE_GROUP" _ refl refl
        (lines-known "unless role in [CFO, CEO]" _ refl refl (lines-known "" s refl refl refl))) in
    rw (^^_assoc name _ s) (lines-header name _ named ∙ ap (λ ls. header_line name ∷ ls) known)

pub lines-payroll :
    (name s : String)
    → IsOneLine name
    → lines (payroll_block name ^^ s)
      ≡ header_line name
        ∷ ("deny EXPORT SALARY" ∷ ("unless role == PAYROLL_ADMIN" ∷ ("" ∷ lines s)))
unfolding payroll_block ◌^^◌ lacks strip_suffix_char
lines-payroll name s named =
    let known =
      lines-known "deny EXPORT SALARY" _ refl refl (
        lines-known "unless role == PAYROLL_ADMIN" _ refl refl (lines-known "" s refl refl refl)) in
    rw (^^_assoc name _ s) (lines-header name _ named ∙ ap (λ ls. header_line name ∷ ls) known)
