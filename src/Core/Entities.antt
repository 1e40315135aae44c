-- ===== src/Core/Entities.antt =====
-- crates/authz-core/src/entities.rs: the entities that a request is evaluated over.
use paac.Prelude.{
  String, ◌^^◌, Option, none, some, List, [], ◌∷◌, ◌++◌, map, IndexMap, lookup, insert, keys,
  Result, ok, err, panic, ◌>>=◌, map_err, or_else, has, join, replace_char, to_ascii_uppercase,
  to_ascii_lowercase, is_empty, if◌then◌else◌, str_eq,
}
use paac.Core.Error.{Authz, entity}
use paac.Core.Request.{
  Subject, Resource, Relationship, AuthzRequest, manager_of, direct_reports, group_member,
  delegation,
}
use paac.Core.Cedar.{Cedar}

-- `entry(k).or_default().push(v)`
unfoldable pub push_entry : {V : Type 0} → String → V → IndexMap (List V) → IndexMap (List V)
push_entry k v m = insert k (or_else (lookup k m) [] ++ v ∷ []) m

-- `insert` into a `HashSet<String>`
unfoldable pub add_name : String → List String → List String
add_name g names = if has names g then names else names ++ g ∷ []

unfoldable pub add_names : List String → List String → List String
unfolding add_name
add_names [] names = names
add_names (g ∷ gs) names = add_names gs (add_name g names)

-- The text of a string literal as `str_attr` and `set_attr` write it.
unfoldable pub quote : String → String
quote v = "\"" ^^ (replace_char 34 "\\\"" v ^^ "\"")

unfoldable pub set_text : List String → String
unfolding quote
set_text vals = "[" ^^ (join ", " (map quote vals) ^^ "]")

-- `kind.eq_ignore_ascii_case("user")` reads "Employee", and so does an empty kind.
unfoldable pub subject_type : String → String
subject_type kind =
    let k = if is_empty kind then "Employee" else kind in
    if str_eq (to_ascii_lowercase k) "user" then "Employee" else k

module _ (cedar : Cedar) where
  open cedar use {
    TypeName, EntityId, Expression, Entity, parse_type, parse_id, parse_expression, new_entity,
  }

  abbrev pub Uid : Type 0
  Uid = TypeName × EntityId

  -- What the loops over relationships and group members collect.
  pub record Links : Type 0 where
    pub managed : IndexMap (List String)
    pub reports : IndexMap (List String)
    pub members : IndexMap (List String)
    pub parents : IndexMap (List Uid)

  abbrev pub no_links : Links
  no_links = record { managed = []; reports = []; members = []; parents = [] }

  unfoldable pub uid : String → String → Authz Uid
  uid type_name id = do
    tn ← map_err (λ e. entity ("type " ^^ (type_name ^^ (": " ^^ e)))) (parse_type type_name)
    eid ← map_err (λ e. entity ("id " ^^ (id ^^ (": " ^^ e)))) (parse_id id)
    ok (tn, eid)

  -- `.expect(…)`: the thread panics on a text that Cedar cannot read.
  abbrev pub expect : {A : Type 0} → Result String A → Authz A
  expect (ok a) = ok a
  expect (err e) = panic
  expect panic = panic

  unfoldable pub str_attr : String → Authz Expression
  unfolding quote
  str_attr v = expect (parse_expression (quote v))

  unfoldable pub set_attr : List String → Authz Expression
  unfolding set_text
  set_attr vals = expect (parse_expression (set_text vals))

  -- `for (k, v) in from { attrs.insert(k, str_attr(v)) }`
  unfoldable pub add_attrs : IndexMap String → IndexMap Expression → Authz (IndexMap Expression)
  unfolding str_attr
  add_attrs [] attrs = ok attrs
  add_attrs ((k, v) ∷ rest) attrs = do e ← str_attr v; add_attrs rest (insert k e attrs)

  add_opt_str : String → Option String → IndexMap Expression → Authz (IndexMap Expression)
  add_opt_str k none attrs = ok attrs
  add_opt_str k (some v) attrs = do e ← str_attr v; ok (insert k e attrs)

  add_opt_set : String → Option (List String) → IndexMap Expression → Authz (IndexMap Expression)
  add_opt_set k none attrs = ok attrs
  add_opt_set k (some v) attrs = do e ← set_attr v; ok (insert k e attrs)

  -- one round of the loop over `req.relationships`
  unfoldable pub add_relationship : Relationship → Links → Authz Links
  add_relationship rel l = elim rel.kind [
    | manager_of ↦ ok (record l { managed = push_entry rel.source rel.target l.managed })
    | direct_reports ↦ ok (record l { reports = push_entry rel.source rel.target l.reports })
    | group_member ↦ (do
      g ← uid "Group" rel.target
      ok (record l {
        members = push_entry rel.target rel.source l.members;
        parents = push_entry rel.source g l.parents;
      }))
    | delegation ↦ ok l
  ]

  unfoldable pub add_relationships : List Relationship → Links → Authz Links
  unfolding add_relationship
  add_relationships [] l = ok l
  add_relationships (rel ∷ rels) l = do l' ← add_relationship rel l; add_relationships rels l'

  -- the two nested loops over `input.group_members`
  unfoldable pub add_members : String → List String → Links → Authz Links
  add_members group [] l = ok l
  add_members group (m ∷ ms) l = do
    g ← uid "Group" group
    add_members group ms
        (record l { parents = push_entry m g l.parents; members = push_entry group m l.members })

  unfoldable pub add_groups : IndexMap (List String) → Links → Authz Links
  unfolding add_members
  add_groups [] l = ok l
  add_groups ((group, ms) ∷ rest) l = do l' ← add_members group ms l; add_groups rest l'

  -- `for g in groups { all_parents.insert(uid("Group", g)?) }`
  unfoldable pub add_parents : List String → List Uid → Authz (List Uid)
  add_parents [] ps = ok ps
  add_parents (g ∷ gs) ps = do u ← uid "Group" g; add_parents gs (ps ++ u ∷ [])

  unfoldable pub principal_entity : AuthzRequest → Links → Authz Entity
  unfolding add_opt_str add_opt_set
  principal_entity req l = do
    roles ← set_attr req.principal.roles
    groups ← set_attr req.principal.groups
    a1 ← add_attrs req.principal.attrs (insert "groups" groups (insert "roles" roles []))
    reports ← set_attr (or_else (lookup req.principal.id l.reports) [])
    a2 ←
        add_opt_set "manages" (lookup req.principal.id l.managed)
          (insert "direct_reports" reports a1)
    a3 ← add_opt_str "on_behalf_of" req.on_behalf_of a2
    a4 ← add_opt_str "acting_as" req.acting_as a3
    p ← uid "User" req.principal.id
    ps ← add_parents req.principal.groups (or_else (lookup req.principal.id l.parents) [])
    map_err entity (new_entity p a4 ps)

  unfoldable pub subject_entity : Subject → Links → Authz Entity
  subject_entity s l = do
    groups ← set_attr s.groups
    attrs ← add_attrs s.attrs (insert "groups" groups [])
    u ← uid (subject_type s.kind) s.id
    ps ← add_parents s.groups (or_else (lookup s.id l.parents) [])
    map_err entity (new_entity u attrs ps)

  unfoldable pub subject_entities : Option Subject → Links → Authz (List Entity)
  unfolding subject_entity
  subject_entities none l = ok []
  subject_entities (some s) l = do e ← subject_entity s l; ok (e ∷ [])

  unfoldable pub resource_entity : Resource → Authz Entity
  resource_entity r = do
    kind ← str_attr r.kind
    attrs ← add_attrs r.attrs (insert "kind" kind [])
    u ← uid "Resource" (or_else r.id r.kind)
    map_err entity (new_entity u attrs [])

  -- an entity with neither attributes nor parents
  unfoldable pub bare_entity : String → String → Authz Entity
  bare_entity type_name id = do u ← uid type_name id; map_err entity (new_entity u [] [])

  unfoldable pub group_entities : List String → Authz (List Entity)
  unfolding bare_entity
  group_entities [] = ok []
  group_entities (g ∷ gs) = do e ← bare_entity "Group" g; es ← group_entities gs; ok (e ∷ es)

  subject_groups : Option Subject → List String
  subject_groups none = []
  subject_groups (some s) = s.groups

  -- the names put into `all_groups`
  unfoldable pub all_groups : AuthzRequest → IndexMap (List String) → Links → List String
  unfolding subject_groups add_names
  all_groups req given l = add_names (keys given) (
      add_names (keys l.members)
        (add_names (subject_groups req.subject) (add_names req.principal.groups [])))

  unfoldable pub build_entities : AuthzRequest → IndexMap (List String) → Authz (List Entity)
  build_entities req given = do
    l0 ← add_relationships req.relationships no_links
    l ← add_groups given l0
    p ← principal_entity req l
    s ← subject_entities req.subject l
    r ← resource_entity req.resource
    gs ← group_entities (all_groups req given l)
    a ← bare_entity "Action" (to_ascii_uppercase req.action.name)
    ok (p ∷ (s ++ (r ∷ (gs ++ a ∷ []))))
