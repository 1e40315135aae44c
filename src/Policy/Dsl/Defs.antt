-- ===== src/Policy/Dsl/Defs.antt =====
-- crates/authz-policy/src/dsl.rs
use paac.Prelude.{
  ℕ, ◌+◌, String, ◌^^◌, ◌||◌, Option, none, some, List, [], ◌∷◌, ◌++◌, map, ok, err, ok_or, ◌>>=◌,
  is_empty, is_char, trim, trim_start_by, trim_end_by, trim_end_text, strip_prefix,
  strip_suffix_char, split_by, split_whitespace, before_char, or_text, drop_empty, lines, ends_with,
  contains, to_ascii_uppercase, show_nat, str_eq, first, if◌then◌else◌,
}
use paac.Policy.Error.{PolicyError, Fallible, parse}

pub data DslEffect : Type 0 where
  allow deny review : DslEffect

pub record DslPolicy : Type 0 where
  pub id : String
  pub effect : DslEffect
  pub action : String
  pub resource : String
  pub when_roles : List String
  pub where_subjects : List String
  pub unless_roles : List String
  pub where_subject_groups : List String
  pub raw : String

pub record Partial : Type 0 where
  pub id : String
  pub effect : Option DslEffect
  pub action : Option String
  pub resource : Option String
  pub when_roles : List String
  pub where_subjects : List String
  pub where_subject_groups : List String
  pub unless_roles : List String
  pub raw : String

unfoldable pub partial_new : String → String → Partial
partial_new id raw = record {
  id = id;
  effect = none;
  action = none;
  resource = none;
  when_roles = [];
  where_subjects = [];
  where_subject_groups = [];
  unless_roles = [];
  raw = raw;
}

-- `policy {id}: missing …`
abbrev pub missing : String → String → PolicyError
missing id what = parse ("policy " ^^ (id ^^ (": missing " ^^ what)))

unfoldable pub finish : Partial → Fallible DslPolicy
finish p = do
  effect ← ok_or (missing p.id "allow/deny/review") p.effect
  action ← ok_or (missing p.id "action") p.action
  resource ← ok_or (missing p.id "resource") p.resource
  ok (record {
    id = p.id;
    effect = effect;
    action = action;
    resource = resource;
    when_roles = p.when_roles;
    where_subjects = p.where_subjects;
    unless_roles = p.unless_roles;
    where_subject_groups = p.where_subject_groups;
    raw = p.raw;
  })

-- `line {loc}: …`
abbrev pub at_line : ℕ → String → PolicyError
at_line loc what = parse ("line " ^^ (show_nat loc ^^ (": " ^^ what)))

unfoldable pub strip_comment : String → String
strip_comment line = or_text line (before_char b'#' line)

unfoldable pub parse_quoted_name : String → Option String
parse_quoted_name s =
    let t = trim s in
    let bare = first (split_whitespace t) in
    elim (strip_prefix "\"" t) [
      | none ↦ bare
      | some x ↦ elim (strip_suffix_char 34 x) [ none ↦ bare | some inner ↦ some inner ]
    ]

unfoldable pub parse_list : String → List String
parse_list s = drop_empty (
    map trim (
      split_by (is_char b',') (trim_end_by (is_char b']') (trim_start_by (is_char b'[') (trim s)))))

-- The two forms of a role condition, which `parse_when` and `parse_unless` share: the roles to add.
unfoldable pub parse_roles : String → Option (List String)
parse_roles rest = elim (strip_prefix "role ==" rest) [
  | some r ↦ some (trim r ∷ [])
  | none ↦ elim (strip_prefix "role in " rest) [ some r ↦ some (parse_list r) | none ↦ none ]
]

unfoldable pub parse_when : String → Partial → ℕ → Fallible Partial
parse_when text p loc =
    let rest = trim text in
    elim (parse_roles rest) [
      | some roles ↦ ok (record p { when_roles = p.when_roles ++ roles })
      | none ↦ err (at_line loc ("unsupported when: " ^^ rest))
    ]

unfoldable pub parse_unless : String → Partial → ℕ → Fallible Partial
parse_unless text p loc =
    let rest = trim text in
    elim (parse_roles rest) [
      | some roles ↦ ok (record p { unless_roles = p.unless_roles ++ roles })
      | none ↦ err (at_line loc ("unsupported unless: " ^^ rest))
    ]

take_two : List String → Partial → ℕ → Fallible Partial
take_two (a ∷ (r ∷ more)) p loc =
    ok (record p { action = some (to_ascii_uppercase a); resource = some (to_ascii_uppercase r) })
take_two _ p loc = err (at_line loc "expected ACTION RESOURCE")

unfoldable pub parse_action_resource : String → Partial → ℕ → Fallible Partial
unfolding take_two
parse_action_resource rest p loc = take_two (split_whitespace rest) p loc

-- what `subject in …` adds
unfoldable pub add_subject_in : String → Partial → Partial
add_subject_in name p =
    if str_eq name "DIRECT_REPORTS"
    then record p { where_subjects = p.where_subjects ++ "DIRECT_REPORTS" ∷ [] }
    else if ends_with name "_GROUP" || (str_eq name "EXECUTIVE_GROUP" || contains name "GROUP")
    then record p {
      where_subject_groups = p.where_subject_groups ++ trim_end_text "_GROUP" name ∷ [];
    }
    else record p { where_subject_groups = p.where_subject_groups ++ name ∷ [] }

unfoldable pub parse_where : String → Partial → ℕ → Fallible Partial
parse_where text p loc =
    let rest = trim text in
    if str_eq rest "subject == SELF" || str_eq rest "subject==SELF"
    then ok (record p { where_subjects = p.where_subjects ++ "SELF" ∷ [] })
    else elim (strip_prefix "subject in " rest) [
      | some r ↦ ok (add_subject_in (trim r) p)
      | none ↦ elim (strip_prefix "subject == " rest) [
        | some r ↦ ok (record p { where_subjects = p.where_subjects ++ trim r ∷ [] })
        | none ↦ err (at_line loc ("unsupported where: " ^^ rest))
      ]
    ]

-- The kinds of statement lines; an effect line sets the policy's effect.
pub data Statement : Type 0 where
  when_line where_line unless_line : Statement
  effect_line : DslEffect → Statement

unfoldable pub run_statement : Statement → String → Partial → ℕ → Fallible Partial
run_statement when_line rest p loc = parse_when rest p loc
run_statement (effect_line e) rest p loc =
    parse_action_resource rest (record p { effect = some e }) loc
run_statement where_line rest p loc = parse_where rest p loc
run_statement unless_line rest p loc = parse_unless rest p loc

-- The keywords, in the order in which they are tried.
abbrev pub keywords : List (String × Statement)
keywords =
    ("when ", when_line)
    ∷ (("allow ", effect_line allow)
        ∷ (("deny ", effect_line deny)
            ∷ (("review ", effect_line review)
                ∷ (("where ", where_line)
                    ∷ (("or ", where_line) ∷ (("unless ", unless_line) ∷ []))))))

unfoldable pub dispatch : List (String × Statement) → String → Partial → ℕ → Fallible Partial
dispatch [] line p loc = err (at_line loc ("unknown statement: " ^^ line))
dispatch ((word, s) ∷ more) line p loc = elim (strip_prefix word line) [
  | some rest ↦ run_statement s rest p loc
  | none ↦ dispatch more line p loc
]

-- `current.take()` and `finish` of what it held
unfoldable pub close : Option Partial → List DslPolicy → Fallible (List DslPolicy)
close none done = ok done
close (some p) done = do policy ← finish p; ok (done ++ policy ∷ [])

-- The variables of the loop: the policies so far and the open one.
pub record ParseState : Type 0 where
  pub policies : List DslPolicy
  pub current : Option Partial

-- One line that is neither blank nor a comment.
unfoldable pub parse_line : String → String → ℕ → ParseState → Fallible ParseState
parse_line raw_line line loc st = elim (strip_prefix "policy " line) [
  | some rest ↦ (do
    done ← close st.current st.policies
    id ← ok_or (at_line loc "expected policy \"name\"") (parse_quoted_name rest)
    ok (record { policies = done; current = some (partial_new id raw_line) }))
  | none ↦ (do
    p ← ok_or (at_line loc "statement outside policy") st.current
    p' ← dispatch keywords line (record p { raw = p.raw ^^ ("\n" ^^ raw_line) }) loc
    ok (record st { current = some p' }))
]

-- the loop over the lines; `lineno` counts from 0
unfoldable pub parse_lines : List String → ℕ → ParseState → Fallible ParseState
parse_lines [] lineno st = ok st
parse_lines (raw_line ∷ more) lineno st =
    let line = trim (strip_comment raw_line) in
    let skip = parse_lines more (lineno + 1) st in
    let read = (do
      st' ← parse_line raw_line line (lineno + 1) st
      parse_lines more (lineno + 1) st') in
    if is_empty line then skip else read

unfoldable pub parse_dsl : String → Fallible (List DslPolicy)
unfolding parse_lines
parse_dsl input = do
  st ← parse_lines (lines input) 0 (record { policies = []; current = none })
  close st.current st.policies
