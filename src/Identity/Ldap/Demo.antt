-- ===== src/Identity/Ldap/Demo.antt =====
-- crates/authz-identity/src/adapters.rs: the directory in memory that the demos synchronise with.
use paac.Prelude.{String, some, List, [], ◌∷◌}
use paac.Core.Request.{direct_reports}
use paac.Identity.Model.{CanonicalIdentity, Group, RelationshipEdge}

pub record MockLdapDirectory : Type 0 where
  pub users : List CanonicalIdentity
  pub groups : List Group
  pub relationships : List RelationshipEdge

-- One person with one role and one group, as all are in the demo.
abbrev pub person : String → String → String → String → String → CanonicalIdentity
person id display_name email role group = record {
  id = id;
  display_name = display_name;
  email = some email;
  source = "ldap-mock";
  roles = role ∷ [];
  groups = group ∷ [];
  attrs = [];
}

abbrev pub named_group : String → List String → String → Group
named_group name members source = record {
  id = name;
  name = name;
  members = members;
  source = source;
}

unfoldable pub demo : MockLdapDirectory
demo = record {
  users =
      person "user:hr-head" "Alex HR" "hr@example.com" "HR_HEAD" "HR"
      ∷ (person "employee:CEO" "Casey CEO" "ceo@example.com" "CEO" "EXECUTIVE"
          ∷ (person "employee:alice" "Alice Engineer" "alice@example.com" "ENGINEER" "ENGINEERING"
              ∷ (person "user:finance" "Finn Finance" "finance@example.com" "FINANCE_ANALYST"
                    "FINANCE"
                  ∷ [])));
  groups =
      named_group "EXECUTIVE" ("employee:CEO" ∷ []) "ldap-mock"
      ∷ (named_group "HR" ("user:hr-head" ∷ []) "ldap-mock"
          ∷ (named_group "ENGINEERING" ("employee:alice" ∷ []) "ldap-mock"
              ∷ (named_group "FINANCE" ("user:finance" ∷ []) "ldap-mock"
                  ∷ (named_group "PAYROLL" [] "ldap-mock" ∷ []))));
  relationships =
      record {
        kind = direct_reports;
        start = "user:hr-head";
        target = "employee:alice";
        source = "ldap-mock";
      }
      ∷ [];
}
