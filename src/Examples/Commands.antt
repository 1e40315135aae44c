-- ===== src/Examples/Commands.antt =====
-- Tests of the commands in crates/authz-cli/src/main.rs.

use paac.Prelude.{
  String, Bool, true, false, Option, none, some, List, [], ◌∷◌, map, Result, ok, err, ◌≡◌, ◌≢◌, ◌↔◌,
  refl,
}
use paac.Core.Evaluate.{EvaluatorConfig}
use paac.Policy.Store.{Disk, empty_disk}
use paac.Policy.Store.Lifecycle.{Reach}
use paac.Identity.Ldap.{LdapLib}
use paac.Identity.Providers.{HttpLib}
use paac.Cli.State.{Paths, Libraries, Moment, World}
use paac.Cli.Policies.{policy_test, policies_to_test, demo_test_cases}
use paac.Cli.Decisions.{CheckFlags, check_cmd}
use paac.Cli.Main.{policy_cmd, identity_cmd, deploy, sync, run}
use paac.Cli.Lifecycle.{SameButDrafts, run-Reach, run-SameButDrafts}
use paac.Cli.Outcomes.{IsChecked, check_cmd-IsChecked}
use paac.Cli.Verdicts.{AllPass, policy_test_iff}
use paac.Examples.Toy.{kernel, crypto, native, catalog, stamp}
use paac.Examples.Policies.{clock, signed, no_revision, reached_signed}
use paac.Examples.Reports.{format}

-- A directory that is not there, and a network that is not.
abbrev no_ldap : LdapLib
no_ldap = record {
  Connection = Unit {0};
  Answer = Unit {0};
  Found = Unit {0};
  connect = λ url. err "connection refused";
  simple_bind = λ conn dn password. ok tt;
  success = λ answer. ok tt;
  search = λ conn base filter attrs. ok tt;
  entries = λ found. ok [];
}

abbrev no_http : HttpLib
no_http = record { get_json = λ url token. err "offline"; post_form = λ url form. err "offline" }

abbrev pub libraries : Libraries
libraries = record {
  cedar = kernel;
  schema = "";
  crypto = crypto;
  ldap = no_ldap;
  http = no_http;
  native = native;
  lines = format;
  read_catalog = record { from_json = λ s. ok catalog; from_yaml = λ s. ok catalog };
  read_snapshot = λ s. err "not a snapshot";
  pretty_request = λ r. "{}";
  pretty_decision = λ d. "{}";
}

abbrev pub paths : Paths
paths = record {
  policy_dir = "data/policies";
  identity_dir = "data/identity";
  audit_path = "data/audit/decisions.jsonl";
  key_path = "data/keys/signing.json";
}

abbrev pub moment : Moment libraries
moment = record { clock = clock; stamp = λ n. stamp; secret = "secret" }

-- The files with a policy store, and nothing else.
abbrev pub files : Disk → World
files disk = record {
  disk = disk;
  snapshot = none;
  fixtures = err "no such file";
  audit = none;
  key = none;
  other = λ path. err "no such file";
  printed = [];
}

run-Reach_example :
    Reach kernel "" crypto (run libraries paths moment (policy_cmd deploy) (files signed.1)).1.disk
run-Reach_example =
    run-Reach libraries paths moment (policy_cmd deploy) (files signed.1) reached_signed

run-SameButDrafts_example :
    SameButDrafts signed.1
      (run libraries paths moment (identity_cmd (sync "entra" true)) (files signed.1)).1.disk
run-SameButDrafts_example =
    run-SameButDrafts libraries paths moment (identity_cmd (sync "entra" true)) (files signed.1)
      refl

-- A store with a deployed revision.
abbrev in_force : Disk
in_force = record empty_disk {
  deployed = some (record no_revision { revision = "r1"; cedar = "permit();" });
}

abbrev flags : CheckFlags
flags = record {
  principal = "user:hr-head";
  action = "READ";
  resource = "TRAVEL_EXPENSE";
  subject = some "employee:alice";
  role = "HR_HEAD" ∷ [];
  subject_group = [];
  direct_report = "employee:alice" ∷ [];
  nl = none;
}

allowed : (check_cmd libraries moment flags (files in_force)).0 ≡ ok 0
unfolding check_cmd paac.Policy.Store.policy_set_from_deployed paac.Policy.Store.load_deployed
    paac.Core.Evaluate.evaluate paac.Core.Evaluate.prepare paac.Core.Evaluate.decide
    paac.Core.Request.validate paac.Prelude.trim paac.Core.Request.with_roles
    paac.Core.Request.action_new paac.Core.Request.resource_of_kind
    paac.Core.Entities.build_entities paac.Core.Entities.add_relationships
    paac.Core.Entities.add_groups paac.Core.Entities.principal_entity paac.Core.Entities.set_attr
    paac.Core.Entities.add_attrs paac.Prelude.lookup paac.Core.Entities.uid
    paac.Core.Entities.add_parents paac.Core.Entities.subject_entities
    paac.Core.Entities.resource_entity paac.Core.Entities.group_entities
    paac.Core.Entities.all_groups paac.Core.Evaluate.uid paac.Prelude.to_ascii_uppercase
    paac.Cli.State.print_all paac.Cli.Policies.bundle_key paac.Core.Evaluate.determining
    paac.Core.Evaluate.effect_from_cedar
allowed = refl

check_cmd-IsChecked_example :
    IsChecked libraries moment flags
      (files in_force)
      0
      (check_cmd libraries moment flags (files in_force)).1
check_cmd-IsChecked_example = check_cmd-IsChecked libraries moment flags (files in_force) 0 allowed

policy_test_iff_example : ((policy_test libraries moment (files in_force)).0 ≡ ok tt) ↔ (
    (cfg : EvaluatorConfig kernel) × ((policies_to_test libraries (files in_force)).0 ≡ ok cfg)
    × AllPass libraries moment cfg demo_test_cases 0)
policy_test_iff_example = policy_test_iff libraries moment (files in_force)
