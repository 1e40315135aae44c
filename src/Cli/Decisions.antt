-- ===== src/Cli/Decisions.antt =====
-- crates/authz-cli/src/main.rs: checks, explanations and suggestions.
use Prim.Native.Nat.{ℕ}
use paac.Prelude.{
  String, ◌^^◌, Option, none, some, List, [], ◌∷◌, ◌++◌, map, IndexMap, Result, ok, err, panic,
  or_else, map_err, length, show_nat, contains, is_nil, if◌then◌else◌,
}
use paac.Core.Request.{
  AuthzRequest, Relationship, direct_reports, with_roles, action_new, resource_of_kind,
}
use paac.Core.Decision.{AuthzDecision, MatchedPolicy, is_deny}
use paac.Core.Evaluate.{EvaluatorConfig, evaluate}
use paac.Policy.Store.{policy_set_from_deployed}
use paac.Bridge.{build_request}
use paac.Identity.Model.{IdentitySnapshot}
use paac.Identity.Ldap.{group_members_map}
use paac.Suggest.{
  Suggestion, append_audit, suggest_from_snapshot, suggest_from_audit, write_suggestions,
}
use paac.Cli.State.{
  Paths, CliError, policy, kernel, bridge, json, io, bail, context, Libraries, Moment, Cli, ◌>>=◌,
  ◌>>◌, return, lift, of_result, fail, asks, modify, print, print_all,
}
use paac.Cli.Policies.{debug_effect, bundle_key}

-- The flags of `check`.
pub record CheckFlags : Type 0 where
  pub principal : String
  pub action : String
  pub resource : String
  pub subject : Option String
  pub role : List String
  pub subject_group : List String
  pub direct_report : List String
  pub nl : Option String

unfoldable pub report_edges : String → List String → List Relationship
report_edges principal [] = []
report_edges principal (dr ∷ more) =
    record { kind = direct_reports; source = principal; target = dr } ∷ report_edges principal more

unfoldable pub request_of_flags : CheckFlags → AuthzRequest
unfolding report_edges
request_of_flags f = record {
  principal = with_roles f.principal f.role;
  action = action_new f.action;
  resource = resource_of_kind f.resource;
  subject = elim f.subject [
    | none ↦ none
    | some id ↦ some (record { id = id; kind = "Employee"; groups = f.subject_group; attrs = [] })
  ];
  context = record { values = [] };
  relationships = report_edges f.principal f.direct_report;
  acting_as = none;
  on_behalf_of = none;
}

-- A line that is printed if there is something to print.
unfoldable pub opt_line : String → Option String → List String
opt_line label none = []
opt_line label (some text) = (label ^^ text) ∷ []

unfoldable pub determining_line : Option MatchedPolicy → List String
determining_line none = []
determining_line (some p) =
    ("determining_policy: " ^^ (p.id ^^ (" (" ^^ (debug_effect p.effect ^^ ")")))) ∷ []

-- The lines that `check` prints of a decision.
unfoldable pub decision_lines : (AuthzRequest → String) → AuthzDecision → List String
unfolding opt_line determining_line
decision_lines pretty d =
    ("DECISION: " ^^ debug_effect d.effect)
    ∷ (("decision_id: " ^^ d.evidence.decision_id)
        ∷ (("policy_revision: " ^^ d.evidence.policy_revision)
            ∷ (opt_line "policy_signature: " d.evidence.policy_signature
                ++ (("engine_version: " ^^ d.evidence.engine_version)
                    ∷ (determining_line d.evidence.determining_policy
                        ++ (map (λ p. "matched_policy: " ^^ p.id) d.evidence.matched_policies
                            ++ (map (λ n. "note: " ^^ n) d.evidence.notes
                                ++ ("request: " ^^ pretty d.evidence.request) ∷ [])))))))

-- A snapshot file, if there is one: `from_str(…)?` on its text.
unfoldable pub read_snapshot :
    Option (Result String IdentitySnapshot) → Cli (Option IdentitySnapshot)
read_snapshot none = return none
read_snapshot (some file) = do snap ← lift json file; return (some snap)

unfoldable pub members_of : Option IdentitySnapshot → IndexMap (List String)
members_of none = []
members_of (some snap) = group_members_map snap

-- `.context(…)` on a result that is lifted
abbrev pub context_err : {A : Type 0} → String → Result CliError A → Result CliError A
context_err text (ok a) = ok a
context_err text (err e) = err (context text e)
context_err text panic = panic

-- `from_str` on a line, whose error is not looked into
abbrev pub or_unreadable : Option AuthzDecision → Result String AuthzDecision
or_unreadable none = err "not a decision"
or_unreadable (some d) = ok d

module _ (lib : Libraries) (moment : Moment lib) where
  -- The request: from an utterance if one is given, else from the flags.
  unfoldable pub request_for : CheckFlags → Option String → Cli AuthzRequest
  unfolding request_of_flags
  request_for f (some utterance) =
      lift bridge (build_request lib.native (with_roles f.principal f.role) none utterance)
  request_for f none = return (request_of_flags f)

  -- `append_audit` on the file, which is made if it is not there. The source goes on where the line
  -- cannot be written, which is taken not to happen.
  unfoldable pub audit : AuthzDecision → Cli (Unit {0})
  audit d = modify (λ w. record w { audit = some (append_audit lib.lines d (or_else w.audit [])) })

  unfoldable pub deployed_config : Cli (EvaluatorConfig lib.cedar)
  unfolding read_snapshot members_of
  deployed_config = do
    found ← asks (λ w. policy_set_from_deployed lib.cedar lib.schema w.disk)
    deployed ← of_result (
        context_err "no deployed policies — run: authz policy commit/sign/deploy"
          (map_err policy found))
    file ← asks (λ w. w.snapshot)
    snap ← read_snapshot file
    return (record {
      policy_set = deployed.0;
      policy_revision = deployed.1.revision;
      policy_signature = bundle_key deployed.1;
      group_members = members_of snap;
    })

  -- The rest of `check`: the decision, its record and its lines, and the status that the process exits
  -- with, where nothing fails.
  unfoldable pub conclude : AuthzRequest → EvaluatorConfig lib.cedar → Cli ℕ
  unfolding audit decision_lines
  conclude req cfg = do
    decision ← lift kernel (evaluate lib.cedar (moment.stamp 0) req cfg)
    audit decision
    print_all (decision_lines lib.pretty_request decision)
    if is_deny decision.effect then return 2 else return 0

  unfoldable pub check_cmd : CheckFlags → Cli ℕ
  unfolding request_for deployed_config conclude
  check_cmd f = do req ← request_for f f.nl; cfg ← deployed_config; conclude req cfg

  -- The loop over the lines of the audit file.
  unfoldable pub explain_lines : String → List String → Cli (Unit {0})
  explain_lines id [] = fail (bail ("decision " ^^ (id ^^ " not found in audit log")))
  explain_lines id (line ∷ more) =
      if contains line id
      then (do
        d ← lift json (or_unreadable (lib.lines.read_decision line))
        print (lib.pretty_decision d))
      else explain_lines id more

  -- The audit file, if there is one.
  unfoldable pub explain_file : Paths → String → Option (List String) → Cli (Unit {0})
  unfolding explain_lines
  explain_file paths id none =
      fail (context ("audit log " ^^ paths.audit_path) (io "No such file or directory"))
  explain_file paths id (some lines) = explain_lines id lines

  unfoldable pub explain_cmd : Paths → String → Cli (Unit {0})
  unfolding explain_file
  explain_cmd paths id = do file ← asks (λ w. w.audit); explain_file paths id file

  unfoldable pub suggestions_of : Option IdentitySnapshot → List Suggestion
  suggestions_of none = []
  suggestions_of (some snap) = suggest_from_snapshot snap

  -- `write_suggestions(&store, &suggestions)?`
  unfoldable pub write_all : List Suggestion → Cli (List String)
  write_all suggestions w =
      let (written, disk) = write_suggestions suggestions w.disk in
      (ok written, record w { disk = disk })

  unfoldable pub suggest_cmd : Cli (Unit {0})
  unfolding read_snapshot suggestions_of write_all
  suggest_cmd = do
    file ← asks (λ w. w.snapshot)
    snap ← read_snapshot file
    lines ← asks (λ w. or_else w.audit [])
    let suggestions = suggestions_of snap ++ suggest_from_audit lib.lines lines
    if is_nil suggestions
        then print "no suggestions (sync identity or accumulate audit first)"
        else do
          written ← write_all suggestions
          print ("wrote " ^^ (show_nat (length written) ^^ " draft(s):"))
          print_all (map (λ w. "  - drafts/" ^^ (w ^^ ".dsl")) written)
