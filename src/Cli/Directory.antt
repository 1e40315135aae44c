-- ===== src/Cli/Directory.antt =====
-- crates/authz-cli/src/main.rs: the synchronisation of identities.
use paac.Prelude.{
  String, ◌^^◌, Bool, true, none, some, [], ◌∷◌, length, ok, show_nat, has, map_err, if◌then◌else◌,
}
use paac.Identity.Model.{IdentitySnapshot}
use paac.Identity.Drafts.{default_drafts_from_groups}
use paac.Identity.Ldap.{mock_demo, write_drafts_to_store, local_sync}
use paac.Identity.Ldap as Ldap
use paac.Identity.Providers.{
  EntraIdAdapter, CognitoAdapter, default_graph, sync_ad, sync_entra, sync_cognito,
}
use paac.Identity.Discover.{demo_ad, discover_all_stores}
use paac.Policy.Store.{write_draft}
use paac.Cli.State.{
  Paths, identity, bail, Libraries, Moment, Cli, ◌>>=◌, ◌>>◌, return, lift, fail, asks, modify,
  print, put_disk,
}

abbrev demo_entra : EntraIdAdapter
demo_entra = record {
  config = record {
    tenant_id = "demo";
    client_id = "demo";
    client_secret = "";
    graph_base = default_graph;
    mock = true;
  };
  mock_users = none;
  mock_groups = none;
}

abbrev demo_cognito : CognitoAdapter
demo_cognito = record {
  config = record {
    region = "us-east-1";
    user_pool_id = "demo";
    access_key_id = "";
    secret_access_key = "";
    mock = true;
    mock_endpoint = none;
  };
  mock_payload = none;
}

-- `store.write_draft(name, dsl)?`
unfoldable pub draft : String → String → Cli (Unit {0})
draft name dsl = modify (λ w. record w { disk = write_draft name dsl w.disk })

-- `save_snapshot(&out, &snap)?`
unfoldable pub save_snapshot : IdentitySnapshot → Cli (Unit {0})
save_snapshot snap = modify (λ w. record w { snapshot = some (ok snap) })

unfoldable pub counts : IdentitySnapshot → String
counts snap =
    show_nat (length snap.users) ^^ (" users, " ^^ (show_nat (length snap.groups) ^^ " groups"))

-- where the snapshot is written
unfoldable pub snapshot_path : Paths → String
snapshot_path p = p.identity_dir ^^ "/snapshot.json"

-- The drafts of a provider, if they are asked for.
unfoldable pub provider_drafts : Bool → String → String → IdentitySnapshot → Cli (Unit {0})
unfolding draft
provider_drafts drafts idp name snap =
    if drafts
    then (do
      draft name (default_drafts_from_groups idp snap)
      print ("wrote DRAFT policies drafts/" ^^ (name ^^ ".dsl")))
    else return tt

-- `LdapAdapter::write_drafts_to_store`
unfoldable pub ldap_drafts : IdentitySnapshot → Cli String
ldap_drafts snap w = put_disk w (map_err identity (write_drafts_to_store snap w.disk))

module _ (lib : Libraries) (paths : Paths) (moment : Moment lib) where
  unfoldable pub identity_discover : Bool → Cli (Unit {0})
  unfolding draft save_snapshot counts snapshot_path
  identity_discover drafts = do
    both ← lift identity (discover_all_stores lib.ldap lib.http moment.clock.rfc3339)
    save_snapshot both.0
    print (
        "Auto-Discovered across all stores (AD, LDAP, Entra ID, Cognito): "
        ^^ (counts both.0 ^^ (" → " ^^ snapshot_path paths)))
    if drafts
        then (do
          draft "auto-discovered" both.1
          print (
              "wrote DRAFT policies to "
              ^^ (paths.policy_dir ^^ "/drafts/auto-discovered.dsl (never auto-deployed)"))
          print ("--- auto-discovered draft preview ---\n" ^^ both.1))
        else return tt

  -- The arm of the match on the source, with the drafts that it writes.
  unfoldable pub sync_source : String → Bool → Cli IdentitySnapshot
  unfolding provider_drafts
  sync_source source drafts =
      if has ("ldap" ∷ ("mock-ldap" ∷ [])) source
      then lift identity (Ldap.sync lib.ldap mock_demo moment.clock.rfc3339)
      else if has ("ad" ∷ ("active_directory" ∷ [])) source
      then (do
        snap ← lift identity (sync_ad lib.ldap demo_ad moment.clock.rfc3339)
        provider_drafts drafts "ad" "ad-sync" snap
        return snap)
      else if has ("entra" ∷ ("entra_id" ∷ [])) source
      then (do
        snap ← lift identity (sync_entra lib.http demo_entra moment.clock.rfc3339)
        provider_drafts drafts "entra" "entra-sync" snap
        return snap)
      else if has ("cognito" ∷ []) source
      then (do
        snap ← lift identity (sync_cognito lib.http demo_cognito moment.clock.rfc3339)
        provider_drafts drafts "cognito" "cognito-sync" snap
        return snap)
      else if has ("local" ∷ []) source
      then (do file ← asks (λ w. w.fixtures); lift identity (local_sync lib.read_snapshot file))
      else fail (
          bail
            ("unknown identity source: " ^^ (source ^^ " (use ldap|ad|entra|cognito|local|all)")))

  -- what follows the match
  unfoldable pub after_sync : String → Bool → IdentitySnapshot → Cli (Unit {0})
  unfolding save_snapshot counts snapshot_path ldap_drafts
  after_sync source drafts snap = do
    save_snapshot snap
    print ("synced " ^^ (counts snap ^^ (" via " ^^ (source ^^ (" → " ^^ snapshot_path paths)))))
    if drafts
        then (do
          dsl ← ldap_drafts snap
          print (
              "wrote DRAFT policies to "
              ^^ (paths.policy_dir ^^ "/drafts/ldap-sync.dsl (not deployed)"))
          print ("--- draft preview ---\n" ^^ dsl))
        else return tt

  unfoldable pub identity_sync : String → Bool → Cli (Unit {0})
  unfolding identity_discover sync_source after_sync
  identity_sync source drafts =
      if has ("all" ∷ ("discover" ∷ [])) source
      then identity_discover drafts
      else do snap ← sync_source source drafts; after_sync source drafts snap
