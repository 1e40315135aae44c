-- ===== src/Identity/Drafts/Texts.antt =====
-- Texts that crates/authz-policy/src/dsl.rs reads as policies: those that crates/authz-identity/src
-- drafts for a group.
use Prim.Native.String.{[]}
use mathlib.Core.List.{append_assoc, append-nil}
use mathlib.Core.Option
use paac.Prelude.{
  String, ◌^^◌, ^^_assoc, ^^-nil, Bool, true, false, ◌≡◌, refl, sym, ap, subst, ◌∙◌, List, ◌++◌,
  All, ok, is_empty, trim, split_by, lines, contains, if◌then◌else◌,
}
use paac.Policy.Dsl.{DslPolicy, strip_comment, parse_lines, ParseState, parse_dsl, close}
use paac.Identity.Model.{Group}
use paac.Identity.Drafts.{
  Style, self_profile_block, protect_block, payroll_block, group_blocks, draft_groups,
}
use paac.Identity.Drafts.Blocks.{
  IsOneLine, roles_of, self_profile_policy, protect_policy, payroll_policy, lines-self_profile,
  lines-protect, lines-payroll, header_line, role_line, allow_line,
}
use paac.Identity.Drafts.Steps.{Runs, Runs-blank}
use paac.Identity.Drafts.Adds.{Adds, Adds-self_profile, Adds-protect, Adds-payroll}

-- A text that adds policies to those that are read before it.
pub record AddsText (s : String) (qs : List DslPolicy) : Type 0 where
  pub its_lines : List String
  pub split : (rest : String) → lines (s ^^ rest) ≡ its_lines ++ lines rest
  pub adds : Adds its_lines qs

Runs-append :
    (ls ms : List String) (st st1 st2 : ParseState)
    → Runs ls st st1
    → Runs ms st1 st2
    → Runs (ls ++ ms) st st2
Runs-append ls ms st st1 st2 r q more n =
    let (k, e) = r (ms ++ more) n in
    let (m, d) = q more k in (m, rw (append_assoc ls ms more) (e ∙ d))

Adds-append :
    (ls ms : List String) (qs rs : List DslPolicy)
    → Adds ls qs
    → Adds ms rs
    → Adds (ls ++ ms) (qs ++ rs)
unfolding Adds
Adds-append ls ms qs rs a b st ps ready =
    let (st1, run1, ready1) = a st ps ready in
    let (st2, run2, ready2) = b st1 (ps ++ qs) ready1 in
    (st2, Runs-append ls ms st st1 st2 run1 run2, rw (sym (append_assoc ps qs rs)) ready2)

Adds-nil : Adds List.[] List.[]
unfolding Adds
Adds-nil st ps ready = (st, λ more n. (n, refl), rw (append-nil ps) ready)

-- A line of which nothing is left without its comment adds nothing.
pub Adds-blank :
    (raw : String)
    → is_empty (trim (strip_comment raw)) ≡ true
    → Adds (List.◌∷◌ raw List.[]) List.[]
unfolding Adds
Adds-blank raw h st ps ready = (st, Runs-blank raw st h, rw (append-nil ps) ready)

pub AddsText-append :
    (s t : String) (qs rs : List DslPolicy)
    → AddsText s qs
    → AddsText t rs
    → AddsText (s ^^ t) (qs ++ rs)
AddsText-append s t qs rs a b = record {
  its_lines = a.its_lines ++ b.its_lines;
  split = λ rest. rw (^^_assoc s t rest) (
      rw (a.split (t ^^ rest))
        (rw (b.split rest) (sym (append_assoc a.its_lines b.its_lines (lines rest)))));
  adds = Adds-append a.its_lines b.its_lines qs rs a.adds b.adds;
}

pub AddsText-nil : AddsText [] List.[]
unfolding ◌^^◌
AddsText-nil = record { its_lines = List.[]; split = λ rest. refl; adds = Adds-nil }

-- Reading a text that adds policies gives them.
pub parse_dsl-AddsText : (s : String) (qs : List DslPolicy) → AddsText s qs → parse_dsl s ≡ ok qs
unfolding parse_dsl parse_lines close Adds lines split_by
parse_dsl-AddsText s qs a =
    let (st, run, ready) =
      a.adds (record { policies = List.[]; current = Option.none }) List.[] refl in
    let (m, e) = run List.[] 0 in
    let whole : lines s ≡ a.its_lines ++ List.[] = ap lines (sym (^^-nil s)) ∙ a.split [] in
    rw whole (rw e ready)

-- The policies that a generator means for a group.
abbrev pub group_policies : Style → Group → List DslPolicy
group_policies style g =
    let gid = style.gid g.name in
    List.◌∷◌ (self_profile_policy (style.self_profile gid) gid (List.◌∷◌ gid List.[])) (
      (if style.is_executive gid
        then List.◌∷◌ (protect_policy (style.protect_expense gid)) List.[]
        else List.[])
      ++ (if contains gid "PAYROLL"
          then List.◌∷◌ (payroll_policy style.payroll_export) List.[]
          else List.[]))

abbrev pub draft_policies : Style → List Group → List DslPolicy
draft_policies style List.[] = List.[]
draft_policies style (List.◌∷◌ g gs) = group_policies style g ++ draft_policies style gs

-- The name of a group, as the generator writes it, can stand in a line and is read as one role.
pub record IsNamed (style : Style) (g : Group) : Type 0 where
  pub in_line : IsOneLine (style.gid g.name)
  pub one_role : roles_of (style.gid g.name) ≡ List.◌∷◌ (style.gid g.name) List.[]

-- The names of the policies can stand in a line if the group's name can.
pub record IsLined (style : Style) : Type 0 where
  pub self : (gid : String) → IsOneLine gid → IsOneLine (style.self_profile gid)
  pub protect : (gid : String) → IsOneLine gid → IsOneLine (style.protect_expense gid)
  pub payroll : IsOneLine style.payroll_export

AddsText-self_profile :
    (name gid : String)
    → IsOneLine name
    → IsOneLine gid
    → AddsText
        (self_profile_block name gid)
        (List.◌∷◌ (self_profile_policy name gid (roles_of gid)) List.[])
AddsText-self_profile name gid named h = record {
  its_lines = List.◌∷◌ (header_line name) (
      List.◌∷◌ (role_line gid)
        (List.◌∷◌ (allow_line) (List.◌∷◌ ("where subject == SELF") (List.◌∷◌ ("") List.[]))));
  split = λ rest. lines-self_profile name gid rest named h;
  adds = Adds-self_profile name gid named h;
}

AddsText-protect :
    (name : String)
    → IsOneLine name
    → AddsText (protect_block name) (List.◌∷◌ (protect_policy name) List.[])
AddsText-protect name named = record {
  its_lines = List.◌∷◌ (header_line name) (
      List.◌∷◌ ("deny READ TRAVEL_EXPENSE") (
        List.◌∷◌ ("where subject in EXECUTIVE_GROUP")
          (List.◌∷◌ ("unless role in [CFO, CEO]") (List.◌∷◌ ("") List.[]))));
  split = λ rest. lines-protect name rest named;
  adds = Adds-protect name named;
}

AddsText-payroll :
    (name : String)
    → IsOneLine name
    → AddsText (payroll_block name) (List.◌∷◌ (payroll_policy name) List.[])
AddsText-payroll name named = record {
  its_lines = List.◌∷◌ (header_line name) (
      List.◌∷◌ ("deny EXPORT SALARY")
        (List.◌∷◌ ("unless role == PAYROLL_ADMIN") (List.◌∷◌ ("") List.[])));
  split = λ rest. lines-payroll name rest named;
  adds = Adds-payroll name named;
}

AddsText-if :
    (b : Bool) (s : String) (qs : List DslPolicy)
    → AddsText s qs
    → AddsText (if b then s else "") (if b then qs else List.[])
AddsText-if true s qs a = a
AddsText-if false s qs a = AddsText-nil

AddsText-group :
    (style : Style) (g : Group)
    → IsLined style
    → IsNamed style g
    → AddsText (group_blocks style g) (group_policies style g)
unfolding group_blocks
AddsText-group style g l h =
    let gid = style.gid g.name in
    let self =
      subst
        (λ roles.
          AddsText (self_profile_block (style.self_profile gid) gid)
            (List.◌∷◌ (self_profile_policy (style.self_profile gid) gid roles) List.[]))
        h.one_role
        (AddsText-self_profile (style.self_profile gid) gid (l.self gid h.in_line) h.in_line) in
    let protect =
      AddsText-if (style.is_executive gid) _ _
        (AddsText-protect (style.protect_expense gid) (l.protect gid h.in_line)) in
    let payroll =
      AddsText-if (contains gid "PAYROLL") _ _ (AddsText-payroll style.payroll_export l.payroll) in
    AddsText-append _ _ _ _ self (AddsText-append _ _ _ _ protect payroll)

pub AddsText-groups :
    (style : Style) (gs : List Group)
    → IsLined style
    → All (IsNamed style) gs
    → AddsText (draft_groups style gs) (draft_policies style gs)
unfolding draft_groups
AddsText-groups style List.[] l h = AddsText-nil
AddsText-groups style (List.◌∷◌ g gs) l h =
    AddsText-append (group_blocks style g) (draft_groups style gs) (group_policies style g) _
      (AddsText-group style g l h.0) (AddsText-groups style gs l h.1)
