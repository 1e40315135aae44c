-- ===== src/Cli/Laws.antt =====
-- What the commands of crates/authz-cli/src/main.rs do to the policy store, command by command.
use Prim.Native.Nat.{ℕ, suc}
use paac.Prelude.{
  String, Option, none, some, List, [], ◌∷◌, ◌++◌, map, or_else, ltb, is_nil, contains, Result, ok,
  err, panic, map_err,
}
use paac.Core.Request.{AuthzRequest}
use paac.Core.Decision.{is_deny}
use paac.Core.Evaluate.{EvaluatorConfig, evaluate}
use paac.Identity.Model.{IdentitySnapshot}
use paac.Catalog.{validate_catalog}
use paac.Catalog.Load.{load_catalog}
use paac.Policy.Error.{PolicyError}
use paac.Policy.Translate.{cedar_policy_set_from_dsl}
use paac.Policy.Store.{
  Disk, PolicyRevision, validate_dsl, read_active_dsl, diff_active_vs_revision,
  policy_set_from_deployed,
}
use paac.Suggest.{Suggestion, suggest_from_audit, write_suggestions}
use paac.Cli.State.{Paths, policy, kernel, json, catalog, Libraries, Moment, print_all}
use paac.Cli.Policies.{
  Case, text_to_validate, policy_validate, policies_to_test, run_cases, policy_test, head_to_diff,
  revision_to_diff, policy_diff, config_to_test, demo_test_cases, policy_line,
}
use paac.Cli.Decisions.{
  CheckFlags, request_for, deployed_config, context_err, decision_lines, explain_file,
  suggestions_of, conclude, check_cmd, explain_lines, explain_cmd, write_all, suggest_cmd,
  read_snapshot, or_unreadable,
}
use paac.Cli.Main.{catalog_arm}
use paac.Cli.Moves.{AllowsDrafts, Moves, after-Moves, if-Moves, print_all-Moves}

module _ (R : Disk → Disk → Type 0) (allows : AllowsDrafts R) where
  pub head_to_diff-Moves : (head : Option String) → Moves R allows (head_to_diff head)
  unfolding head_to_diff
  head_to_diff-Moves none w = allows.same w.disk
  head_to_diff-Moves (some r) w = allows.same w.disk

  pub revision_to_diff-Moves : (r : Option String) → Moves R allows (revision_to_diff r)
  unfolding revision_to_diff
  revision_to_diff-Moves none w = head_to_diff-Moves _ w
  revision_to_diff-Moves (some r) w = allows.same w.disk

  pub policy_diff-Moves : (r : Option String) → Moves R allows (policy_diff r)
  unfolding policy_diff
  policy_diff-Moves r w =
      after-Moves R allows (revision_to_diff r w) _ w.disk (revision_to_diff-Moves r w) (λ rev v.
        after-Moves R allows (map_err policy (diff_active_vs_revision rev v.disk), v) _ v.disk
          (allows.same v.disk) (λ text u. allows.same u.disk))

  pub read_snapshot-Moves :
      (file : Option (Result String IdentitySnapshot)) → Moves R allows (read_snapshot file)
  unfolding read_snapshot
  read_snapshot-Moves none w = allows.same w.disk
  read_snapshot-Moves (some (ok s)) w = allows.same w.disk
  read_snapshot-Moves (some (err s)) w = allows.same w.disk
  read_snapshot-Moves (some panic) w = allows.same w.disk

  pub write_suggestions-Moves :
      (suggestions : List Suggestion) (d : Disk) → R d (write_suggestions suggestions d).1
  unfolding write_suggestions
  write_suggestions-Moves [] d = allows.same d
  write_suggestions-Moves (s ∷ more) d =
      allows.then_ (allows.drafts s.name s.dsl d) (write_suggestions-Moves more _)

  module _ (lib : Libraries) (paths : Paths) (moment : Moment lib) where
    pub text_to_validate-Moves : (file : Option String) → Moves R allows (text_to_validate lib file)
    unfolding text_to_validate
    text_to_validate-Moves none w = allows.same w.disk
    text_to_validate-Moves (some path) w = allows.same w.disk

    pub policy_validate-Moves : (file : Option String) → Moves R allows (policy_validate lib file)
    unfolding policy_validate
    policy_validate-Moves file w =
        after-Moves R allows (text_to_validate lib file w) _ w.disk (text_to_validate-Moves file w)
          (λ dsl v.
            after-Moves R allows (map_err policy (validate_dsl lib.cedar lib.schema dsl), v) _
              v.disk (allows.same v.disk) (λ ps u. print_all-Moves R allows (map policy_line ps) _))

    pub config_to_test-Moves :
        (r : Result PolicyError (lib.cedar.PolicySet × PolicyRevision))
        → Moves R allows (config_to_test lib r)
    unfolding config_to_test
    config_to_test-Moves (ok (set, rev)) w = allows.same w.disk
    config_to_test-Moves (err e) w =
        after-Moves R allows
          (map_err policy (validate_dsl lib.cedar lib.schema (read_active_dsl w.disk)), w) _ w.disk
          (allows.same w.disk)
          (λ ps v.
            after-Moves R allows (map_err policy (cedar_policy_set_from_dsl lib.cedar ps), v) _
              v.disk (allows.same v.disk) (λ set u. allows.same u.disk))
    config_to_test-Moves panic w = allows.same w.disk

    pub run_cases-Moves :
        (cfg : EvaluatorConfig lib.cedar) (cases : List Case) (n failed : ℕ)
        → Moves R allows (run_cases lib moment cfg cases n failed)
    unfolding run_cases
    run_cases-Moves cfg [] n failed w = allows.same w.disk
    run_cases-Moves cfg (c ∷ cases) n failed w =
        after-Moves R allows (map_err kernel (evaluate lib.cedar (moment.stamp n) c.request cfg), w)
          _ w.disk (allows.same w.disk) (λ d v. run_cases-Moves cfg cases (suc n) _ _)

    pub policy_test-Moves : Moves R allows (policy_test lib moment)
    unfolding policy_test policies_to_test
    policy_test-Moves w =
        after-Moves R allows (policies_to_test lib w) _ w.disk (config_to_test-Moves _ w) (λ cfg v.
          after-Moves R allows (run_cases lib moment cfg demo_test_cases 0 0 v) _ v.disk
            (run_cases-Moves cfg demo_test_cases 0 0 v)
            (λ failed u.
              if-Moves R allows (ltb 0 failed) _ _ (λ t. allows.same t.disk)
                (λ t. allows.same t.disk) u))

    pub request_for-Moves :
        (f : CheckFlags) (nl : Option String) → Moves R allows (request_for lib moment f nl)
    unfolding request_for
    request_for-Moves f none w = allows.same w.disk
    request_for-Moves f (some utterance) w = allows.same w.disk

    pub deployed_config-Moves : Moves R allows (deployed_config lib moment)
    unfolding deployed_config
    deployed_config-Moves w =
        after-Moves R allows
          (context_err _ (map_err policy (policy_set_from_deployed lib.cedar lib.schema w.disk)), w)
          _ w.disk (allows.same w.disk)
          (λ deployed v.
            after-Moves R allows (read_snapshot v.snapshot v) _ v.disk
              (read_snapshot-Moves v.snapshot v) (λ snap u. allows.same u.disk))

    conclude-Moves :
        (req : AuthzRequest) (cfg : EvaluatorConfig lib.cedar)
        → Moves R allows (conclude lib moment req cfg)
    unfolding conclude
    conclude-Moves req cfg w =
        after-Moves R allows (map_err kernel (evaluate lib.cedar (moment.stamp 0) req cfg), w) _
          w.disk (allows.same w.disk)
          (λ d v.
            after-Moves R allows (print_all (decision_lines lib.pretty_request d) _) _ v.disk
              (print_all-Moves R allows (decision_lines lib.pretty_request d) _)
              (λ _ u.
                if-Moves R allows (is_deny d.effect) _ _ (λ t. allows.same t.disk)
                  (λ t. allows.same t.disk) u))

    pub check_cmd-Moves : (f : CheckFlags) → Moves R allows (check_cmd lib moment f)
    unfolding check_cmd
    check_cmd-Moves f w =
        after-Moves R allows (request_for lib moment f f.nl w) _ w.disk (request_for-Moves f f.nl w)
          (λ req v.
            after-Moves R allows (deployed_config lib moment v) _ v.disk (deployed_config-Moves v)
              (λ cfg. conclude-Moves req cfg))

    pub explain_lines-Moves :
        (id : String) (lines : List String) → Moves R allows (explain_lines lib moment id lines)
    unfolding explain_lines
    explain_lines-Moves id [] w = allows.same w.disk
    explain_lines-Moves id (line ∷ more) w =
        if-Moves R allows (contains line id) _ _
          (λ v.
            after-Moves R allows (map_err json (or_unreadable (lib.lines.read_decision line)), v) _
              v.disk (allows.same v.disk) (λ d u. allows.same u.disk))
          (explain_lines-Moves id more) w

    pub explain_file-Moves :
        (id : String) (file : Option (List String))
        → Moves R allows (explain_file lib moment paths id file)
    unfolding explain_file
    explain_file-Moves id none w = allows.same w.disk
    explain_file-Moves id (some lines) w = explain_lines-Moves id lines w

    pub explain_cmd-Moves : (id : String) → Moves R allows (explain_cmd lib moment paths id)
    unfolding explain_cmd
    explain_cmd-Moves id w = explain_file-Moves id w.audit w

    pub suggest_cmd-Moves : Moves R allows (suggest_cmd lib moment)
    unfolding suggest_cmd write_all
    suggest_cmd-Moves w =
        after-Moves R allows (read_snapshot w.snapshot w) _ w.disk
          (read_snapshot-Moves w.snapshot w)
          (λ snap v.
            if-Moves R allows
              (is_nil (
                suggestions_of lib moment snap
                ++ suggest_from_audit lib.lines (or_else v.audit [])))
              _ _ (λ u. allows.same u.disk)
              (λ u. allows.then_ (write_suggestions-Moves _ u.disk) (print_all-Moves R allows _ _))
              v)

    pub catalog_arm-Moves : (file : String) → Moves R allows (catalog_arm lib paths moment file)
    unfolding catalog_arm
    catalog_arm-Moves file w =
        after-Moves R allows
          (map_err catalog (load_catalog lib.read_catalog file (w.other file)), w) _ w.disk
          (allows.same w.disk)
          (λ cat v.
            after-Moves R allows (map_err catalog (validate_catalog cat), v) _ v.disk
              (allows.same v.disk) (λ _ u. allows.same u.disk))
