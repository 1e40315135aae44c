-- ===== src/Cli/Policies.antt =====
-- crates/authz-cli/src/main.rs: the commands on policies.
use Prim.Native.Nat.{ℕ, suc}
use paac.Prelude.{
  String, ◌^^◌, Bool, true, false, Option, none, some, List, [], ◌∷◌, map, length, Result, ok, err,
  panic, show_nat, ltb, if◌then◌else◌,
}
use paac.Core.Request.{AuthzRequest, direct_reports, with_roles, action_new, resource_of_kind}
use paac.Core.Decision.{DecisionEffect, allow, deny, review, AuthzDecision}
use paac.Core.Evaluate.{EvaluatorConfig, evaluate}
use paac.Policy.Error.{PolicyError}
use paac.Policy.Dsl.{DslPolicy}
use paac.Policy.Translate.{cedar_policy_set_from_dsl}
use paac.Policy.Sign.{BundleSigner, SigningKeyPair, from_keypair, generate}
use paac.Policy.Store.{
  PolicyRevision, read_active_dsl, validate_dsl, policy_set_from_deployed, head_revision,
  diff_active_vs_revision, commit, sign_head, deploy_head,
}
use paac.Board.{show_effect}
use paac.Cli.State.{
  Paths, policy, kernel, json, io, bail, Libraries, Moment, Cli, ◌>>=◌, ◌>>◌, return, lift, fail,
  asks, modify, print, print_all, on_disk,
}

-- `{:?}` of a decision's effect
unfoldable pub debug_effect : DecisionEffect → String
debug_effect allow = "Allow"
debug_effect deny = "Deny"
debug_effect review = "Review"

-- `expected == got`
unfoldable pub same_effect : DecisionEffect → DecisionEffect → Bool
same_effect allow allow = true
same_effect deny deny = true
same_effect review review = true
same_effect _ _ = false

unfoldable pub policy_line : DslPolicy → String
policy_line p =
    "  - "
    ^^ (p.id
        ^^ (" (" ^^ (show_effect p.effect ^^ (" " ^^ (p.action ^^ (" " ^^ (p.resource ^^ ")")))))))

-- The two requests of the demo differ in the subject and in the context.
abbrev demo_request : String → String → List (String × String) → AuthzRequest
demo_request subject group values = record {
  principal = with_roles "user:hr-head" ("HR_HEAD" ∷ []);
  action = action_new "READ";
  resource = resource_of_kind "TRAVEL_EXPENSE";
  subject = some (record { id = subject; kind = "Employee"; groups = group ∷ []; attrs = [] });
  context = record { values = values };
  relationships =
      record { kind = direct_reports; source = "user:hr-head"; target = "employee:alice" } ∷ [];
  acting_as = none;
  on_behalf_of = none;
}

-- A test: its name, the request, and the effect that is expected.
pub record Case : Type 0 where
  pub name : String
  pub request : AuthzRequest
  pub expect : DecisionEffect

unfoldable pub demo_test_cases : List Case
demo_test_cases =
    record {
      name = "ceo_expense_deny";
      request = demo_request "employee:CEO" "EXECUTIVE" (("time_range", "LAST_WEEK") ∷ []);
      expect = deny;
    }
    ∷ (record {
      name = "direct_report_allow";
      request = demo_request "employee:alice" "ENGINEERING" [];
      expect = allow;
    }
        ∷ [])

unfoldable pub case_line : Case → AuthzDecision → String
unfolding debug_effect same_effect
case_line c d =
    (if same_effect d.effect c.expect then "PASS" else "FAIL")
    ^^ (" "
        ^^ (c.name
            ^^ (" — expected "
                ^^ (debug_effect c.expect
                    ^^ (", got "
                        ^^ (debug_effect d.effect
                            ^^ (" (rev " ^^ (d.evidence.policy_revision ^^ ")"))))))))

-- `rev.bundle.as_ref().map(|b| b.key_id.clone())`
unfoldable pub bundle_key : PolicyRevision → Option String
bundle_key rev = elim rev.bundle [ none ↦ none | some b ↦ some b.key_id ]

module _ (lib : Libraries) where
  -- The text to validate: that of the file, or the active one.
  unfoldable pub text_to_validate : Option String → Cli String
  text_to_validate none = asks (λ w. read_active_dsl w.disk)
  text_to_validate (some path) = do file ← asks (λ w. w.other path); lift io file

  unfoldable pub policy_validate : Option String → Cli (Unit {0})
  unfolding text_to_validate policy_line
  policy_validate file = do
    dsl ← text_to_validate file
    policies ← lift policy (validate_dsl lib.cedar lib.schema dsl)
    print ("OK: " ^^ (show_nat (length policies) ^^ " policies validated (DSL → Cedar)"))
    print_all (map policy_line policies)

  -- The arms of the match: the deployed policies, or else the active text.
  unfoldable pub config_to_test :
      Result PolicyError (lib.cedar.PolicySet × PolicyRevision) → Cli (EvaluatorConfig lib.cedar)
  unfolding bundle_key
  config_to_test (ok (set, rev)) = return (record {
    policy_set = set;
    policy_revision = rev.revision;
    policy_signature = bundle_key rev;
    group_members = [];
  })
  config_to_test (err e) = do
    dsl ← asks (λ w. read_active_dsl w.disk)
    policies ← lift policy (validate_dsl lib.cedar lib.schema dsl)
    set ← lift policy (cedar_policy_set_from_dsl lib.cedar policies)
    return (record {
      policy_set = set;
      policy_revision = "uncommitted";
      policy_signature = none;
      group_members = [];
    })
  config_to_test panic = λ w. (panic, w)

  -- What the tests run against.
  unfoldable pub policies_to_test : Cli (EvaluatorConfig lib.cedar)
  unfolding config_to_test
  policies_to_test = do
    deployed ← asks (λ w. policy_set_from_deployed lib.cedar lib.schema w.disk)
    config_to_test deployed

  module _ (moment : Moment lib) where
    -- The loop over the cases: the number of those that failed. `n` cases were evaluated before.
    unfoldable pub run_cases : EvaluatorConfig lib.cedar → List Case → ℕ → ℕ → Cli ℕ
    unfolding case_line
    run_cases cfg [] n failed = return failed
    run_cases cfg (c ∷ cases) n failed = do
      d ← lift kernel (evaluate lib.cedar (moment.stamp n) c.request cfg)
      print (case_line c d)
      run_cases cfg cases (suc n) (if same_effect d.effect c.expect then failed else suc failed)

    unfoldable pub policy_test : Cli (Unit {0})
    unfolding policies_to_test run_cases
    policy_test = do
      cfg ← policies_to_test
      failed ← run_cases cfg demo_test_cases 0 0
      if ltb 0 failed then fail (bail (show_nat failed ^^ " policy tests failed")) else return tt

    unfoldable pub policy_commit : String → Cli (Unit {0})
    policy_commit message = do
      rev ← on_disk (commit lib.cedar lib.schema moment.clock message)
      print ("committed revision " ^^ (rev.revision ^^ (" — " ^^ rev.message)))

    -- The signer of the key file, which is made if it is not there.
    unfoldable pub signer_of :
        Paths → Option (Result String SigningKeyPair) → Cli (BundleSigner lib.crypto)
    signer_of paths (some file) = do
      pair ← lift json file
      lift policy (from_keypair lib.crypto pair)
    signer_of paths none = do
      modify
          (λ w. record w { key = some (ok (generate lib.crypto "key-local-mvp" moment.secret).1) })
      print ("generated local signing key → " ^^ paths.key_path)
      return (generate lib.crypto "key-local-mvp" moment.secret).0

    unfoldable pub ensure_key : Paths → Cli (BundleSigner lib.crypto)
    unfolding signer_of
    ensure_key paths = do key ← asks (λ w. w.key); signer_of paths key

    unfoldable pub policy_sign : Paths → Cli (Unit {0})
    unfolding ensure_key
    policy_sign paths = do
      signer ← ensure_key paths
      bundle ← on_disk (sign_head lib.crypto signer moment.clock.rfc3339)
      print (
          "signed revision "
          ^^ (bundle.revision
              ^^ (" with " ^^ (bundle.key_id ^^ (" (sha256 " ^^ (bundle.content_sha256 ^^ ")"))))))

-- The head, if there is one.
unfoldable pub head_to_diff : Option String → Cli String
head_to_diff (some r) = return r
head_to_diff none = fail (bail "no HEAD revision; commit first")

-- The revision to compare with: the one given, or the head.
unfoldable pub revision_to_diff : Option String → Cli String
unfolding head_to_diff
revision_to_diff (some r) = return r
revision_to_diff none = do head ← asks (λ w. head_revision w.disk); head_to_diff head

unfoldable pub policy_diff : Option String → Cli (Unit {0})
unfolding revision_to_diff
policy_diff revision = do
  rev ← revision_to_diff revision
  diff ← asks (λ w. diff_active_vs_revision rev w.disk)
  text ← lift policy diff
  print text

unfoldable pub policy_deploy : Cli (Unit {0})
policy_deploy = do rev ← on_disk deploy_head; print ("deployed revision " ^^ rev.revision)
