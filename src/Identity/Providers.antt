-- ===== src/Identity/Providers.antt =====
-- crates/authz-identity/src/idp.rs: Active Directory, Entra ID and Cognito. HTTP and LDAP are
-- parameters, and the clock is an argument.
use paac.Prelude.{
  String, ◌^^◌, Bool, false, Option, none, some, List, [], ◌∷◌, map, IndexMap, Result, ok, err,
  ◌>>=◌, map_err, ok_or, or_else, trim, split_by, is_char, str_eq, if◌then◌else◌,
}
use paac.Json.{Json, get, as_str, as_array}
use paac.Identity.Model.{CanonicalIdentity, Group, IdentitySnapshot, Identified, msg}
use paac.Identity.Ldap.{LdapLib, LdapConfig, from_config}
use paac.Identity.Ldap
use paac.Identity.Ldap.Demo.{named_group}

pub record ActiveDirectoryConfig : Type 0 where
  pub url : String
  pub bind_dn : String
  pub bind_password : String
  pub base_dn : String
  pub mock : Bool

pub record EntraConfig : Type 0 where
  pub tenant_id : String
  pub client_id : String
  pub client_secret : String
  pub graph_base : String
  pub mock : Bool

pub record EntraIdAdapter : Type 0 where
  pub config : EntraConfig
  pub mock_users : Option Json
  pub mock_groups : Option Json

pub record CognitoConfig : Type 0 where
  pub region : String
  pub user_pool_id : String
  pub access_key_id : String
  pub secret_access_key : String
  pub mock : Bool
  pub mock_endpoint : Option String

pub record CognitoAdapter : Type 0 where
  pub config : CognitoConfig
  pub mock_payload : Option Json

-- What the adapters use of `reqwest`: a request with a bearer token or none, or with a form, and the
-- JSON of its answer, or the text of whatever failed.
pub record HttpLib : Type 0 where
  pub get_json : String → Option String → Result String Json
  pub post_form : String → IndexMap String → Result String Json

abbrev pub default_graph : String
default_graph = "https://graph.microsoft.com/v1.0"

unfoldable pub mock_directory_snapshot : String → String → IdentitySnapshot
mock_directory_snapshot source now = record {
  users =
      record {
        id = "user:hr-head";
        display_name = "Alex HR";
        email = some "hr@example.com";
        source = source;
        roles = "HR_HEAD" ∷ [];
        groups = "HR" ∷ [];
        attrs = [];
      }
      ∷ [];
  groups =
      named_group "HR" ("user:hr-head" ∷ []) source
      ∷ (named_group "EXECUTIVE" ("employee:CEO" ∷ []) source
          ∷ (named_group "PAYROLL" [] source ∷ []));
  relationships = [];
  synced_at = some now;
}

-- `v.get(k).and_then(|v| v.as_str())`
unfoldable pub text_field : String → Json → Option String
text_field k v = elim (get k v) [ none ↦ none | some w ↦ as_str w ]

-- `v.get(k).and_then(|v| v.as_array())`, and nothing for what is no array
unfoldable pub array_field : String → Json → List Json
array_field k v = elim (get k v) [ none ↦ [] | some w ↦ or_else (as_array w) [] ]

-- `get("mail").or_else(|| get("userPrincipalName")).and_then(as_str)`: the second is looked at only
-- where the first is not there at all.
unfoldable pub graph_email : Json → Option String
unfolding text_field
graph_email u = elim (get "mail" u) [
  | some mail ↦ as_str mail
  | none ↦ text_field "userPrincipalName" u
]

unfoldable pub graph_user : Json → CanonicalIdentity
unfolding text_field graph_email
graph_user u = record {
  id = "user:" ^^ or_else (text_field "id" u) "unknown";
  display_name = or_else (text_field "displayName" u) "";
  email = graph_email u;
  source = "entra_id";
  roles = [];
  groups = [];
  attrs = [];
}

unfoldable pub graph_group : Json → Group
unfolding text_field
graph_group g =
    let id = or_else (text_field "id" g) "g" in
    record {
      id = id;
      name = or_else (text_field "displayName" g) id;
      members = [];
      source = "entra_id";
    }

unfoldable pub parse_graph_snapshot : Json → Json → String → Identified IdentitySnapshot
unfolding array_field graph_user graph_group
parse_graph_snapshot users groups now = ok (record {
  users = map graph_user (array_field "value" users);
  groups = map graph_group (array_field "value" groups);
  relationships = [];
  synced_at = some now;
})

-- The loop over the attributes of a Cognito user: its address and its roles so far.
unfoldable pub cognito_attributes :
    List Json → Option String × List String → Option String × List String
unfolding text_field
cognito_attributes [] (email, roles) = (email, roles)
cognito_attributes (a ∷ more) (email, roles) =
    let name = or_else (text_field "Name" a) "" in
    let val = or_else (text_field "Value" a) "" in
    cognito_attributes more (
      (if str_eq name "email" then some val else email),
      (if str_eq name "custom:roles" then map trim (split_by (is_char b',') val) else roles),
    )

unfoldable pub cognito_user : Json → CanonicalIdentity
unfolding text_field array_field cognito_attributes
cognito_user u =
    let username = or_else (text_field "Username" u) "unknown" in
    let (email, roles) = cognito_attributes (array_field "Attributes" u) (none, []) in
    record {
      id = "user:" ^^ username;
      display_name = username;
      email = email;
      source = "cognito";
      roles = roles;
      groups = [];
      attrs = [];
    }

unfoldable pub cognito_group : Json → Group
unfolding text_field
cognito_group g =
    let name = or_else (text_field "GroupName" g) "group" in named_group name [] "cognito"

unfoldable pub parse_cognito_payload : Json → String → Identified IdentitySnapshot
unfolding array_field cognito_user cognito_group
parse_cognito_payload p now = ok (record {
  users = map cognito_user (array_field "Users" p);
  groups = map cognito_group (array_field "Groups" p);
  relationships = [];
  synced_at = some now;
})

-- `ActiveDirectoryAdapter::sync`
unfoldable pub sync_ad : LdapLib → ActiveDirectoryConfig → String → Identified IdentitySnapshot
sync_ad ldap config now =
    if config.mock
    then ok (mock_directory_snapshot "active_directory" now)
    else Ldap.sync ldap
        (from_config (record {
          url = config.url;
          bind_dn = config.bind_dn;
          bind_password = config.bind_password;
          base_dn = config.base_dn;
          mock = false;
          user_filter = "(objectClass=user)";
          group_filter = "(objectClass=group)";
        }))
        now

module _ (http : HttpLib) where
  open http use {get_json, post_form}

  unfoldable pub fetch_token : EntraConfig → Identified String
  unfolding text_field
  fetch_token config = do
    resp ← map_err msg (
        post_form
          ("https://login.microsoftonline.com/" ^^ (config.tenant_id ^^ "/oauth2/v2.0/token"))
          (("client_id", config.client_id)
            ∷ (("client_secret", config.client_secret)
                ∷ (("scope", "https://graph.microsoft.com/.default")
                    ∷ (("grant_type", "client_credentials") ∷ [])))))
    ok_or (msg "entra token missing access_token") (text_field "access_token" resp)

  unfoldable pub sync_graph : EntraConfig → String → Identified IdentitySnapshot
  sync_graph config now = do
    token ← fetch_token config
    users ← map_err msg (
        get_json (config.graph_base ^^ "/users?$select=id,displayName,mail,userPrincipalName")
          (some token))
    groups ←
        map_err msg (get_json (config.graph_base ^^ "/groups?$select=id,displayName") (some token))
    parse_graph_snapshot users groups now

  abbrev pub both : Option Json → Option Json → Option (Json × Json)
  both (some u) (some g) = some (u, g)
  both _ _ = none

  -- `EntraIdAdapter::sync`
  unfoldable pub sync_entra : EntraIdAdapter → String → Identified IdentitySnapshot
  sync_entra a now =
      if a.config.mock
      then elim (both a.mock_users a.mock_groups) [
        | some (u, g) ↦ parse_graph_snapshot u g now
        | none ↦ ok (mock_directory_snapshot "entra_id" now)
      ]
      else sync_graph a.config now

  -- `CognitoAdapter::sync`
  unfoldable pub sync_cognito : CognitoAdapter → String → Identified IdentitySnapshot
  sync_cognito a now =
      if a.config.mock
      then elim a.mock_payload [
        | some p ↦ parse_cognito_payload p now
        | none ↦ ok (mock_directory_snapshot "cognito" now)
      ]
      else elim a.config.mock_endpoint [
        | some url ↦ (do p ← map_err msg (get_json url none); parse_cognito_payload p now)
        | none ↦
            err (
              msg
                "live Cognito requires AWS SigV4 client; set mock=true or mock_endpoint for demos")
      ]
