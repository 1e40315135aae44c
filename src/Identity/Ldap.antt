-- ===== src/Identity/Ldap.antt =====
-- crates/authz-identity/src/adapters.rs: the LDAP adapter with its demo directory, the local fixtures,
-- and what is made of a snapshot. The clock is an argument.
pub mod Demo
use paac.Prelude.{
  String, ◌^^◌, Bool, Option, none, some, List, [], ◌∷◌, map, IndexMap, lookup, insert, Result, ok,
  err, ◌>>=◌, ◌>>◌, map_err, or_else, first, split_by, is_char, trim_start_text, if◌then◌else◌,
}
use paac.Identity.Model.{
  CanonicalIdentity, Group, RelationshipEdge, IdentitySnapshot, Identified, msg, io,
}
use paac.Identity.Drafts.{draft_policies_from_groups}
use paac.Identity.Ldap.Demo.{MockLdapDirectory, demo}
use paac.Policy.Store.{Disk, write_draft}

pub record LdapConfig : Type 0 where
  pub url : String
  pub bind_dn : String
  pub bind_password : String
  pub base_dn : String
  pub mock : Bool
  pub user_filter : String
  pub group_filter : String

abbrev pub default_user_filter : String
default_user_filter = "(objectClass=inetOrgPerson)"

abbrev pub default_group_filter : String
default_group_filter = "(objectClass=groupOfNames)"

pub record LdapAdapter : Type 0 where
  pub config : LdapConfig
  pub mock : MockLdapDirectory

-- `ldap3::SearchEntry`
pub record SearchEntry : Type 0 where
  pub dn : String
  pub attrs : IndexMap (List String)

-- What the adapter uses of the crate `ldap3`: a search below a base gives the entries that pass a
-- filter, with the attributes that were asked for. An answer of the server may still be a refusal.
pub record LdapLib : Type 1 where
  pub Connection : Type 0
  pub Answer : Type 0
  pub Found : Type 0
  pub connect : String → Result String Connection
  pub simple_bind : Connection → String → String → Result String Answer
  pub success : Answer → Result String (Unit {0})
  pub search : Connection → String → String → List String → Result String Found
  pub entries : Found → Result String (List SearchEntry)

unfoldable pub mock_demo : LdapAdapter
mock_demo = record {
  config = record {
    url = "ldap://localhost:389";
    bind_dn = "cn=admin,dc=example,dc=com";
    bind_password = "admin";
    base_dn = "dc=example,dc=com";
    mock = Bool.true;
    user_filter = default_user_filter;
    group_filter = default_group_filter;
  };
  mock = demo;
}

unfoldable pub from_config : LdapConfig → LdapAdapter
from_config config = record { config = config; mock = demo }

-- `attrs.get(k).and_then(|v| v.first()).cloned()`
unfoldable pub first_value : String → SearchEntry → Option String
first_value k entry = elim (lookup k entry.attrs) [ none ↦ none | some vs ↦ first vs ]

-- `attrs.get(k).cloned().unwrap_or_default()`
unfoldable pub values : String → SearchEntry → List String
values k entry = or_else (lookup k entry.attrs) []

-- `dn.split(',').next().unwrap_or(&dn)`
unfoldable pub first_part : String → String
first_part dn = or_else (first (split_by (is_char b',') dn)) dn

unfoldable pub user_of_entry : SearchEntry → CanonicalIdentity
unfolding first_value values first_part
user_of_entry entry = record {
  id = "user:" ^^ or_else (first_value "uid" entry) entry.dn;
  display_name = or_else (first_value "cn" entry) "";
  email = first_value "mail" entry;
  source = "ldap";
  roles = values "employeeType" entry;
  groups = map (λ dn. trim_start_text "cn=" (first_part dn)) (values "memberOf" entry);
  attrs = [];
}

unfoldable pub group_of_entry : SearchEntry → Group
unfolding first_value values first_part
group_of_entry entry =
    let cn = or_else (first_value "cn" entry) entry.dn in
    record {
      id = cn;
      name = cn;
      members =
          map (λ dn. "user:" ^^ trim_start_text "cn=" (trim_start_text "uid=" (first_part dn)))
            (values "member" entry);
      source = "ldap";
    }

module _ (ldap : LdapLib) where
  open ldap use {connect, simple_bind, success, search, entries}

  unfoldable pub sync_live : LdapConfig → String → Identified IdentitySnapshot
  unfolding user_of_entry group_of_entry
  sync_live config now = do
    conn ← map_err (λ e. msg ("ldap connect: " ^^ e)) (connect config.url)
    answer ←
        map_err (λ e. msg ("ldap bind: " ^^ e))
          (simple_bind conn config.bind_dn config.bind_password)
    map_err (λ e. msg ("ldap bind failed: " ^^ e)) (success answer)
    found ←
        map_err (λ e. msg ("ldap user search: " ^^ e))
          (search conn config.base_dn config.user_filter
            ("uid" ∷ ("cn" ∷ ("mail" ∷ ("employeeType" ∷ ("memberOf" ∷ []))))))
    users ← map_err (λ e. msg ("ldap user search failed: " ^^ e)) (entries found)
    gfound ←
        map_err (λ e. msg ("ldap group search: " ^^ e))
          (search conn config.base_dn config.group_filter ("cn" ∷ ("member" ∷ [])))
    groups ← map_err (λ e. msg ("ldap group search failed: " ^^ e)) (entries gfound)
    ok (record {
      users = map user_of_entry users;
      groups = map group_of_entry groups;
      relationships = [];
      synced_at = some now;
    })

  unfoldable pub sync : LdapAdapter → String → Identified IdentitySnapshot
  sync a now =
      if a.config.mock
      then ok (record {
        users = a.mock.users;
        groups = a.mock.groups;
        relationships = a.mock.relationships;
        synced_at = some now;
      })
      else sync_live a.config now

-- `write_drafts_to_store`, with the store that it writes to
unfoldable pub write_drafts_to_store : IdentitySnapshot → Disk → Identified (String × Disk)
write_drafts_to_store snapshot store =
    let dsl = draft_policies_from_groups snapshot in ok (dsl, write_draft "ldap-sync" dsl store)

-- the loop of `group_members_map`
unfoldable pub insert_members : List Group → IndexMap (List String) → IndexMap (List String)
insert_members [] m = m
insert_members (g ∷ gs) m = insert_members gs (insert g.id g.members m)

unfoldable pub group_members_map : IdentitySnapshot → IndexMap (List String)
unfolding insert_members
group_members_map snapshot = insert_members snapshot.groups []

-- `LocalFixtureAdapter::sync` on the text of its file, if it is there, over the reader of JSON.
unfoldable pub local_sync :
    (String → Result String IdentitySnapshot) → Result String String → Identified IdentitySnapshot
local_sync from_str file = do text ← map_err io file; map_err msg (from_str text)
