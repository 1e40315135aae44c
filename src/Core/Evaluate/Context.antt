-- ===== src/Core/Evaluate/Context.antt =====
-- crates/authz-core/src/evaluate.rs: the context of a request, as JSON text.
use paac.Prelude.{
  String, ◌^^◌, Bool, true, false, ◌&&◌, Option, none, some, List, [], ◌∷◌, ◌++◌, map, any, join,
  replace_char, to_ascii_uppercase, str_eq,
}
use paac.Core.Request.{
  Subject, Relationship, RelationshipKind, manager_of, direct_reports, group_member, delegation,
  AuthzRequest,
}

unfoldable pub subject_is_self : AuthzRequest → Bool
subject_is_self req = elim req.subject [ none ↦ false | some s ↦ str_eq s.id req.principal.id ]

-- `matches!(kind, DirectReports | ManagerOf)`
unfoldable pub is_reporting : RelationshipKind → Bool
is_reporting manager_of = true
is_reporting direct_reports = true
is_reporting group_member = false
is_reporting delegation = false

-- the loop of `subject_in_direct_reports`, over the relationships
unfoldable pub reports_to : String → String → List Relationship → Bool
unfolding is_reporting
reports_to manager report rels =
    any (λ r. is_reporting r.kind && (str_eq r.source manager && str_eq r.target report)) rels

unfoldable pub subject_in_direct_reports : AuthzRequest → Bool
subject_in_direct_reports req = elim req.subject [
  | none ↦ false
  | some s ↦ reports_to req.principal.id s.id req.relationships
]

-- Backslashes first, then quotes.
unfoldable pub escape : String → String
unfolding replace_char
escape s = replace_char 34 "\\\"" (replace_char 92 "\\\\" s)

abbrev pub quoted : String → String
quoted s = "\"" ^^ (s ^^ "\"")

unfoldable pub pair : String → String → String
pair k v = quoted k ^^ (": " ^^ v)

unfoldable pub bool_text : Bool → String
bool_text true = "true"
bool_text false = "false"

unfoldable pub array_text : List String → String
array_text xs = "[" ^^ (join ", " (map (λ x. quoted (escape x)) xs) ^^ "]")

subject_pairs : Option Subject → List String
subject_pairs none = pair "subject_id" (quoted "") ∷ pair "subject_groups" (array_text []) ∷ []
subject_pairs (some s) =
    pair "subject_id" (quoted (escape s.id)) ∷ pair "subject_groups" (array_text s.groups) ∷ []

value_pair : String × String → String
value_pair e = pair (escape e.0) (quoted (escape e.1))

-- `ctx_pairs`, in the order in which they are pushed
unfoldable pub context_pairs : AuthzRequest → List String
unfolding subject_pairs value_pair
context_pairs req =
    pair "action_name" (quoted (to_ascii_uppercase req.action.name))
    ∷ (pair "resource_kind" (quoted (to_ascii_uppercase req.resource.kind))
        ∷ (pair "subject_is_self" (bool_text (subject_is_self req))
            ∷ (pair "subject_in_direct_reports" (bool_text (subject_in_direct_reports req))
                ∷ (subject_pairs req.subject
                    ++ (map value_pair req.context.values
                        ++ (pair "principal_roles" (array_text req.principal.roles)
                            ∷ (pair "principal_groups" (array_text req.principal.groups) ∷ [])))))))

unfoldable pub build_context_json : AuthzRequest → String
unfolding context_pairs
build_context_json req = "{" ^^ (join ", " (context_pairs req) ^^ "}")
