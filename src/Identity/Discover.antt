-- ===== src/Identity/Discover.antt =====
-- crates/authz-identity/src/idp.rs: the synchronisation with all stores, which keeps the first user
-- and the first group of each identifier.
pub mod Laws
use paac.Prelude.{
  String, true, Option, none, some, List, [], ◌∷◌, ◌++◌, map, IndexMap, lookup, insert, ok, err,
  panic, ◌>>=◌,
}
use paac.Identity.Model.{CanonicalIdentity, Group, RelationshipEdge, IdentitySnapshot, Identified}
use paac.Identity.Drafts.{generate_auto_discovered_draft_policies}
use paac.Identity.Ldap.{LdapLib}
use paac.Identity.Providers.{
  ActiveDirectoryConfig, EntraIdAdapter, CognitoAdapter, HttpLib, default_graph, sync_ad,
  sync_entra, sync_cognito,
}

abbrev pub demo_ad : ActiveDirectoryConfig
demo_ad = record {
  url = "ldap://localhost:389";
  bind_dn = "cn=admin,dc=example,dc=com";
  bind_password = "admin";
  base_dn = "dc=example,dc=com";
  mock = true;
}

abbrev pub discovered_entra : EntraIdAdapter
discovered_entra = record {
  config = record {
    tenant_id = "auto-discovered-tenant";
    client_id = "auto-discovered-client";
    client_secret = "";
    graph_base = default_graph;
    mock = true;
  };
  mock_users = none;
  mock_groups = none;
}

abbrev pub discovered_cognito : CognitoAdapter
discovered_cognito = record {
  config = record {
    region = "us-east-1";
    user_pool_id = "auto-discovered-pool";
    access_key_id = "";
    secret_access_key = "";
    mock = true;
    mock_endpoint = none;
  };
  mock_payload = none;
}

-- `for x in xs { map.entry(key(x)).or_insert(x) }`
unfoldable pub insert_first : {A : Type 0} → (A → String) → List A → IndexMap A → IndexMap A
insert_first key [] m = m
insert_first key (x ∷ xs) m =
    insert_first key xs (elim (lookup (key x) m) [ some y ↦ m | none ↦ insert (key x) x m ])

-- The values of the map that the loop makes of an empty one.
unfoldable pub dedup : {A : Type 0} → (A → String) → List A → List A
unfolding insert_first
dedup key xs = map (λ e. e.1) (insert_first key xs [])

-- What has been merged so far.
pub record Merged : Type 0 where
  pub users : List CanonicalIdentity
  pub groups : List Group
  pub relationships : List RelationshipEdge

abbrev pub nothing_merged : Merged
nothing_merged = record { users = []; groups = []; relationships = [] }

-- `if let Ok(snap) = … { extend }`
unfoldable pub merge_all : Identified IdentitySnapshot → Merged → Identified Merged
merge_all (ok snap) m = ok (record {
  users = m.users ++ snap.users;
  groups = m.groups ++ snap.groups;
  relationships = m.relationships ++ snap.relationships;
})
merge_all (err e) m = ok m
merge_all panic m = panic

-- The same without the relationships, as for Entra ID and Cognito.
unfoldable pub merge_members : Identified IdentitySnapshot → Merged → Identified Merged
merge_members (ok snap) m =
    ok (record m { users = m.users ++ snap.users; groups = m.groups ++ snap.groups })
merge_members (err e) m = ok m
merge_members panic m = panic

-- `HashMap::into_values` gives the values in an order that is not fixed; here it is that of insertion.
unfoldable pub final_snapshot : Merged → String → IdentitySnapshot
unfolding dedup
final_snapshot m now = record {
  users = dedup (λ u. u.id) m.users;
  groups = dedup (λ g. g.id) m.groups;
  relationships = m.relationships;
  synced_at = some now;
}

module _ (ldap : LdapLib) (http : HttpLib) where
  unfoldable pub discover_all_stores : String → Identified (IdentitySnapshot × String)
  unfolding merge_all merge_members final_snapshot
  discover_all_stores now = do
    m1 ← merge_all (sync_ad ldap demo_ad now) nothing_merged
    m2 ← merge_members (sync_entra http discovered_entra now) m1
    m3 ← merge_members (sync_cognito http discovered_cognito now) m2
    let snap = final_snapshot m3 now
    ok (snap, generate_auto_discovered_draft_policies snap)
