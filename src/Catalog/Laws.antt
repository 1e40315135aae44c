-- ===== src/Catalog/Laws.antt =====
-- What the arguments of a tool call can put into a request of crates/authz-catalog/src/catalog.rs.
use paac.Prelude.{
  String, ◌^^◌, ^^_assoc, ◌≡◌, ◌≢◌, ◌⊎◌, refl, sym, ◌∙◌, Option, none, some, [], ◌∷◌, IndexMap,
  lookup, insert, lookup-insert, find-test, Option-cases, inl, inr, arith, eq_iff, str_eq,
  if◌then◌else◌,
}
use paac.Core.Request.{Principal, action_new}
use paac.Json.{Json, null, boolean, number, text, array, object, Fields, end, field}
use paac.Catalog.Defs.{
  ResourceCatalog, ToolMapping, find_tool, insert_some, flatten_fields, flatten_value,
  flatten_json_args, extract_nested_arg, map_args, resource_arg, authz_for_tool,
}

-- The key does not begin with the prefix.
abbrev pub NotUnder : String → String → Type 0
NotUnder prefix k = (r : String) → (prefix ^^ r) ≢ k

NotUnder-deeper : (prefix s k : String) → NotUnder prefix k → NotUnder (prefix ^^ s) k
NotUnder-deeper prefix s k h r e = h (s ^^ r) (sym (^^_assoc prefix s r) ∙ e)

lookup-insert_other :
    {V : Type 0} (j k : String) (v : V) (m : IndexMap V)
    → j ≢ k
    → lookup k (insert j v m) ≡ lookup k m
lookup-insert_other j k v m h = ground (arith, lookup-insert j k v m, eq_iff j k)

lookup-cons :
    (k j : String) {V : Type 0} (v : V) (m : IndexMap V)
    → lookup k ((j, v) ∷ m) ≡ none
    → (j ≢ k) × (lookup k m ≡ none)
unfolding lookup
lookup-cons k j v m h = (λ e. cc ((eq_iff j k).1 e), ground arith)

find_tool-name :
    (cat : ResourceCatalog) (name : String) {m : ToolMapping}
    → find_tool cat name ≡ some m
    → m.tool_name ≡ name
unfolding find_tool
find_tool-name cat name {m} h = (eq_iff m.tool_name name).0 (find-test _ cat.tools h)

module _ (show : Json → String) (k : String) where
  mutual
    unfolding flatten_fields

    lookup-flatten_fields :
        (fs : Fields) (prefix : String) (out : IndexMap String)
        → NotUnder prefix k
        → lookup k (flatten_fields show fs prefix out) ≡ lookup k out
    lookup-flatten_fields end prefix out h = refl
    lookup-flatten_fields (field j v fs) prefix out h =
        lookup-flatten_fields fs prefix (flatten_value show v (prefix ^^ j) out) h
        ∙ lookup-flatten_value v (prefix ^^ j) out (h j) (NotUnder-deeper prefix j k h)

    lookup-flatten_value :
        (v : Json) (key : String) (out : IndexMap String)
        → key ≢ k
        → NotUnder key k
        → lookup k (flatten_value show v key out) ≡ lookup k out
    lookup-flatten_value (text s) key out h under = lookup-insert_other key k _ out h
    lookup-flatten_value (number n) key out h under = lookup-insert_other key k _ out h
    lookup-flatten_value (boolean b) key out h under = lookup-insert_other key k _ out h
    lookup-flatten_value (object fs) key out h under =
        lookup-flatten_fields fs (key ^^ "_") out (NotUnder-deeper key "_" k under)
    lookup-flatten_value (array xs) key out h under = lookup-insert_other key k _ out h
    lookup-flatten_value null key out h under = refl

  lookup-flatten_json_args :
      (args : Json) (prefix : String) (out : IndexMap String)
      → NotUnder prefix k
      → lookup k (flatten_json_args show args prefix out) ≡ lookup k out
  unfolding flatten_json_args
  lookup-flatten_json_args (object fs) prefix out h = lookup-flatten_fields fs prefix out h
  lookup-flatten_json_args _ prefix out h = refl

  lookup-insert_some :
      (j : String) (o : Option String) (m : IndexMap String)
      → j ≢ k
      → lookup k (insert_some j o m) ≡ lookup k m
  unfolding insert_some
  lookup-insert_some j none m h = refl
  lookup-insert_some j (some v) m h = lookup-insert_other j k v m h

  lookup-map_args :
      (maps : IndexMap String) (args : Json) (ctx : IndexMap String)
      → lookup k maps ≡ none
      → lookup k (map_args show maps args ctx) ≡ lookup k ctx
  unfolding map_args
  lookup-map_args [] args ctx h = refl
  lookup-map_args ((target, path) ∷ more) args ctx h =
      let (other, rest) = lookup-cons k target path more h in
      lookup-map_args more args (insert_some target (extract_nested_arg show args path) ctx) rest
      ∙ lookup-insert_some target (extract_nested_arg show args path) ctx other

  lookup-tool_context :
      (name : String) (args : Json)
      → NotUnder "arg_" k
      → lookup k (flatten_json_args show args "arg_" (insert "tool_name" name []))
        ≡ (if str_eq "tool_name" k then some name else none)
  unfolding lookup
  lookup-tool_context name args under =
      lookup-flatten_json_args args "arg_" (insert "tool_name" name []) under
      ∙ lookup-insert "tool_name" k name []

  -- A context key that does not begin with "arg_", and that no mapping of the tool writes, holds the
  -- tool's name if it is "tool_name" and nothing otherwise, whatever the arguments of the call are.
  pub lookup-authz_for_tool :
      (cat : ResourceCatalog) (principal : Principal) (name : String) (args : Json)
      → NotUnder "arg_" k
      → ((m : ToolMapping) → find_tool cat name ≡ some m → lookup k m.arg_mappings ≡ none)
      → lookup k (authz_for_tool show cat principal name args).context.values
        ≡ (if str_eq "tool_name" k then some name else none)
  unfolding authz_for_tool
  lookup-authz_for_tool cat principal name args under unmapped =
      elim (Option-cases (find_tool cat name)) [
        | inl unknown ↦ rw (unknown, authz_for_tool) (lookup-tool_context name args under)
        | inr (m, known) ↦
            rw (known, authz_for_tool)
              (lookup-map_args m.arg_mappings args _ (unmapped m known)
                ∙ lookup-tool_context name args under)
      ]

-- A tool that is not in the catalog is asked for as TOOL_INVOKE on TOOL_UNKNOWN under its own name,
-- with no attributes, whatever its arguments; a tool that is there, as its mapping says.
pub authz_for_tool-resource :
    (show : Json → String) (cat : ResourceCatalog) (principal : Principal) (name : String)
    (args : Json)
    → ((find_tool cat name ≡ none)
        × ((authz_for_tool show cat principal name args).action.name ≡ "TOOL_INVOKE")
        × ((authz_for_tool show cat principal name args).resource
            ≡ record { kind = "TOOL_UNKNOWN"; id = some name; attrs = [] }))
      ⊎ ((m : ToolMapping) × (find_tool cat name ≡ some m)
          × (m.tool_name ≡ name)
          × ((authz_for_tool show cat principal name args).action.name ≡ m.action)
          × ((authz_for_tool show cat principal name args).resource.kind ≡ m.resource_kind)
          × ((authz_for_tool show cat principal name args).resource.id
              ≡ resource_arg m.resource_id_arg args))
unfolding authz_for_tool action_new
authz_for_tool-resource show cat principal name args = elim (Option-cases (find_tool cat name)) [
  | inl unknown ↦ inl (unknown, rw (unknown, authz_for_tool), rw (unknown, authz_for_tool))
  | inr (m, known) ↦ inr (
    m,
    known,
    find_tool-name cat name known,
    rw (known, authz_for_tool),
    rw (known, authz_for_tool),
    rw (known, authz_for_tool),
  )
]
