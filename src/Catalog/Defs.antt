-- ===== src/Catalog/Defs.antt =====
-- crates/authz-catalog/src/catalog.rs: resources, tool mappings and the requests made of them.
use paac.Prelude.{
  String, ◌^^◌, ◌||◌, Option, none, some, List, [], ◌∷◌, map, IndexMap, insert, insert_all, Result,
  ok, err, find, has, is_nil, ◌&&◌, join, split_by, is_char, str_eq, if◌then◌else◌, trim_start_text,
}
use paac.Core.Request.{Principal, AuthzRequest, action_new, is_blank}
use paac.Core.Evaluate.Context.{bool_text}
use paac.Json.{
  Json, null, boolean, number, text, array, object, Fields, end, field, items, get, as_str,
}

pub data CatalogError : Type 0 where
  io parse validation : String → CatalogError

pub record CatalogResource : Type 0 where
  pub id : String
  pub kind : String
  pub name : String
  pub department : Option String
  pub sensitivity : Option String
  pub attrs : IndexMap String

pub record ToolMapping : Type 0 where
  pub tool_name : String
  pub action : String
  pub resource_kind : String
  pub resource_id_arg : Option String
  pub default_attrs : IndexMap String
  pub arg_mappings : IndexMap String

pub record ResourceCatalog : Type 0 where
  pub version : String
  pub resources : List CatalogResource
  pub tools : List ToolMapping

unfoldable pub find_resource : ResourceCatalog → String → Option CatalogResource
find_resource cat key = find (λ r. str_eq r.id key || str_eq r.kind key) cat.resources

unfoldable pub find_tool : ResourceCatalog → String → Option ToolMapping
find_tool cat name = find (λ t. str_eq t.tool_name name) cat.tools

-- `if let Some(v) = value { attrs.insert(key, v) }`
unfoldable pub insert_some : String → Option String → IndexMap String → IndexMap String
insert_some k none attrs = attrs
insert_some k (some v) attrs = insert k v attrs

-- The attributes that a catalog resource gives.
unfoldable pub resource_attrs : CatalogResource → IndexMap String → IndexMap String
unfolding insert_some
resource_attrs res attrs =
    insert_all res.attrs
      (insert_some "sensitivity" res.sensitivity (insert_some "department" res.department attrs))

-- `for p in parts { current = current.get(p)? }`
unfoldable pub walk : List String → Json → Option Json
walk [] v = some v
walk (p ∷ parts) v = elim (get p v) [ none ↦ none | some w ↦ walk parts w ]

abbrev set_attrs : Option CatalogResource → IndexMap String → IndexMap String
set_attrs none attrs = attrs
set_attrs (some res) attrs = resource_attrs res attrs

abbrev kind_of : Option CatalogResource → String
kind_of none = "VECTOR_COLLECTION"
kind_of (some res) = res.kind

-- The request that the proxy makes for itself, on behalf of nobody.
abbrev pub proxy_request :
    Principal → String → String → Option String → IndexMap String → IndexMap String → AuthzRequest
proxy_request principal action kind id attrs ctx = record {
  principal = principal;
  action = action_new action;
  resource = record { kind = kind; id = id; attrs = attrs };
  subject = none;
  context = record { values = ctx };
  relationships = [];
  acting_as = some "agent:paac-proxy";
  on_behalf_of = none;
}

abbrev or_some : Option String → String → Option String
or_some none d = some d
or_some (some s) d = some s

unfoldable pub authz_for_retrieve :
    ResourceCatalog → Principal → String → Option String → AuthzRequest
authz_for_retrieve cat principal collection document_id =
    let res = find_resource cat collection in
    proxy_request principal "READ" (kind_of res) (or_some document_id collection) (set_attrs res [])
      (insert "collection" collection [])

-- The text argument that names the resource, if the mapping asks for one and it is given.
unfoldable pub resource_arg : Option String → Json → Option String
resource_arg none args = none
resource_arg (some k) args = elim (get k args) [ none ↦ none | some v ↦ as_str v ]

abbrev id_attrs : ResourceCatalog → Option String → IndexMap String → IndexMap String
id_attrs cat none attrs = attrs
id_attrs cat (some id) attrs = set_attrs (find_resource cat id) attrs

-- `show` is `Value::to_string`, compact JSON.
module _ (show : Json → String) where
  unfoldable mutual
    pub flatten_fields : Fields → String → IndexMap String → IndexMap String
    flatten_fields end prefix out = out
    flatten_fields (field k v fs) prefix out =
        flatten_fields fs prefix (flatten_value v (prefix ^^ k) out)

    pub flatten_value : Json → String → IndexMap String → IndexMap String
    flatten_value (text s) key out = insert key s out
    flatten_value (number n) key out = insert key n out
    flatten_value (boolean b) key out = insert key (bool_text b) out
    flatten_value (object fs) key out = flatten_fields fs (key ^^ "_") out
    flatten_value (array xs) key out = insert key (join "," (map show (items xs))) out
    flatten_value null key out = out

  unfoldable pub flatten_json_args : Json → String → IndexMap String → IndexMap String
  unfolding flatten_fields
  flatten_json_args (object fs) prefix out = flatten_fields fs prefix out
  flatten_json_args _ prefix out = out

  unfoldable pub plain_text : Json → String
  plain_text (text s) = s
  plain_text (number n) = n
  plain_text (boolean b) = bool_text b
  plain_text v = show v

  unfoldable pub extract_nested_arg : Json → String → Option String
  unfolding walk plain_text
  extract_nested_arg v path =
      let parts = split_by (is_char b'.') (trim_start_text "$." (trim_start_text "args." path)) in
      elim (walk parts v) [ none ↦ none | some w ↦ some (plain_text w) ]

  -- the loop over `arg_mappings`
  unfoldable pub map_args : IndexMap String → Json → IndexMap String → IndexMap String
  unfolding insert_some
  map_args [] args ctx = ctx
  map_args ((target, path) ∷ more) args ctx =
      map_args more args (insert_some target (extract_nested_arg args path) ctx)

  abbrev tool_context : String → Json → IndexMap String
  tool_context name args = flatten_json_args args "arg_" (insert "tool_name" name [])

  unfoldable pub authz_for_tool : ResourceCatalog → Principal → String → Json → AuthzRequest
  authz_for_tool cat principal name args = elim (find_tool cat name) [
    | some m ↦
        let id = resource_arg m.resource_id_arg args in
        proxy_request principal m.action m.resource_kind id (id_attrs cat id m.default_attrs)
          (map_args m.arg_mappings args (tool_context name args))
    | none ↦
        proxy_request principal "TOOL_INVOKE" "TOOL_UNKNOWN" (some name) [] (tool_context name args)
  ]

abbrev Checked : Type 0
Checked = Result CatalogError (Unit {0})

unfoldable pub validate_resources : List CatalogResource → List String → Checked
validate_resources [] ids = ok tt
validate_resources (r ∷ rs) ids =
    let rest = validate_resources rs (r.id ∷ ids) in
    if is_blank r.id || is_blank r.kind
    then err (validation "resource id and kind are required")
    else if has ids r.id
    then err (validation ("duplicate resource id " ^^ r.id))
    else rest

unfoldable pub validate_tools : List ToolMapping → Checked
validate_tools [] = ok tt
validate_tools (t ∷ ts) =
    let rest = validate_tools ts in
    if is_blank t.tool_name || is_blank t.resource_kind
    then err (validation "tool_name and resource_kind are required")
    else if is_blank t.action
    then err (validation "tool action is required")
    else rest

unfoldable pub validate_catalog : ResourceCatalog → Checked
validate_catalog cat =
    if is_nil cat.resources && is_nil cat.tools
    then err (validation "catalog has no resources or tools")
    else elim (validate_resources cat.resources []) [
      | ok _ ↦ validate_tools cat.tools
      | other ↦ other
    ]
