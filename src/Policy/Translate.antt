-- ===== src/Policy/Translate.antt =====
-- crates/authz-policy/src/translate.rs and schema.rs: policies as a Cedar document.
use paac.Prelude.{
  String, ◌^^◌, Option, none, some, List, [], ◌∷◌, ◌++◌, map, ok, err, ◌>>=◌, map_err, is_nil, join,
  str_eq, if◌then◌else◌,
}
use paac.Core.Cedar.{Cedar}
use paac.Policy.Error.{Fallible, cedar}
use paac.Policy.Dsl.{DslEffect, allow, deny, review, DslPolicy}

-- A review is a forbid, too.
unfoldable pub effect_word : DslEffect → String
effect_word allow = "permit"
effect_word deny = "forbid"
effect_word review = "forbid"

-- a text between quotes, as `format!` puts it there: nothing is escaped
abbrev pub in_quotes : String → String
in_quotes s = "\"" ^^ (s ^^ "\"")

unfoldable pub role_check : String → String
role_check r = "context.principal_roles.contains(" ^^ (in_quotes r ^^ ")")

unfoldable pub group_check : String → String
group_check g = "context.subject_groups.contains(" ^^ (in_quotes g ^^ ")")

unfoldable pub subject_check : String → String
subject_check s =
    if str_eq s "SELF"
    then "context.subject_is_self"
    else if str_eq s "DIRECT_REPORTS"
    then "context.subject_in_direct_reports"
    else "context.subject_id == " ^^ in_quotes s

-- `if !items.is_empty() { when_parts.push(…) }`: the checks joined by "||", between two texts
unfoldable pub any_of : String → (String → String) → List String → List String
any_of opening check items =
    if is_nil items then [] else (opening ^^ (join " || " (map check items) ^^ ")")) ∷ []

unfoldable pub when_parts : DslPolicy → List String
unfolding any_of role_check group_check subject_check
when_parts p =
    ("context.resource_kind == " ^^ in_quotes p.resource)
    ∷ (("context.action_name == " ^^ in_quotes p.action)
        ∷ (any_of "(" role_check p.when_roles
            ++ (any_of "(" subject_check p.where_subjects
                ++ (any_of "(" group_check p.where_subject_groups
                    ++ any_of "!(" role_check p.unless_roles))))

-- The Cedar text of one policy around its condition.
unfoldable pub policy_text : String → DslEffect → String → String → String
unfolding effect_word
policy_text id effect action condition =
    "@id("
    ^^ (in_quotes id
        ^^ (")\n"
            ^^ (effect_word effect
                ^^ (" (\n  principal,\n  action == Action::"
                    ^^ (in_quotes action
                        ^^ (",\n  resource\n) when {\n  " ^^ (condition ^^ "\n};\n")))))))

unfoldable pub translate_one : DslPolicy → Fallible String
unfolding when_parts policy_text
translate_one p = ok (policy_text p.id p.effect p.action (join " &&\n  " (when_parts p)))

translate_all : List DslPolicy → String → Fallible String
translate_all [] out = ok out
translate_all (p ∷ ps) out = do text ← translate_one p; translate_all ps (out ^^ (text ^^ "\n"))

unfoldable pub dsl_to_cedar : List DslPolicy → Fallible String
unfolding translate_all
dsl_to_cedar ps = translate_all ps "// Generated by authz-policy from PAAC DSL\n"

module _ (engine : Cedar) where
  open engine use {PolicySet, parse_policy_set}

  unfoldable pub cedar_policy_set_from_dsl : List DslPolicy → Fallible PolicySet
  cedar_policy_set_from_dsl ps = do text ← dsl_to_cedar ps; map_err cedar (parse_policy_set text)

  -- The errors of the validator, if it found any.
  abbrev no_errors : Option (List String) → Fallible (Unit {0})
  no_errors none = ok tt
  no_errors (some errs) = err (cedar ("Cedar schema validation failed: " ^^ join "; " errs))

  -- `schema` is the text of `DEFAULT_CEDAR_SCHEMA_JSON`.
  unfoldable pub validate_cedar_policy_set : String → PolicySet → Fallible (Unit {0})
  validate_cedar_policy_set schema set = do
    found ← map_err (λ e. cedar ("schema parse error: " ^^ e)) (engine.validate schema set)
    no_errors found
