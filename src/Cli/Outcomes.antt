-- ===== src/Cli/Outcomes.antt =====
-- What the commands of crates/authz-cli/src/main.rs answer: the status of a check, the verdict of the
-- policy tests, and the explanation of a decision.
use Prim.Native.Nat.{ℕ}
use mathlib.Core.List.{append_assoc, append-nil}
use paac.Prelude.{
  String, Bool, true, false, Option, none, some, List, [], ◌∷◌, ◌++◌, Result, ok, err, panic,
  map_err, map_err-eq-ok, ok-injective, or_else, ◌≡◌, refl, sym, ap, ◌∙◌, if◌then◌else◌,
}
use paac.Core.Request.{AuthzRequest}
use paac.Core.Decision.{AuthzDecision, is_deny}
use paac.Core.Evaluate.{EvaluatorConfig, evaluate}
use paac.Identity.Model.{IdentitySnapshot}
use paac.Policy.Store.{policy_set_from_deployed}
use paac.Suggest.{append_audit}
use paac.Cli.State.{
  CliError, policy, kernel, return, Libraries, Moment, World, Cli, after, print_all,
}
use paac.Cli.Decisions.{
  CheckFlags, request_for, deployed_config, conclude, check_cmd, decision_lines, read_snapshot,
  context_err, explain_lines, explain_cmd, explain_file, or_unreadable,
}

module _ {A B : Type 0} where
  -- The parts of a chain that does not fail.
  pub after-eq-ok :
      (r : Result CliError A × World) (next : A → Cli B) {b : B}
      → (after r next).0 ≡ ok b
      → (a : A) × (v : World) × (r ≡ (ok a, v)) × (after r next ≡ next a v)
  after-eq-ok (ok a, w) next h = (a, w, refl, refl)
  after-eq-ok (err e, w) next h = absurd (cc h)
  after-eq-ok (panic, w) next h = absurd (cc h)

  pub after-ok :
      (r : Result CliError A × World) (next : A → Cli B) {a : A}
      → r.0 ≡ ok a
      → after r next ≡ next a r.1
  after-ok (ok b, w) next h = ap (λ x. next x w) (ok-injective h)
  after-ok (err e, w) next h = absurd (cc h)
  after-ok (panic, w) next h = absurd (cc h)

  -- A chain of commands that change nothing.
  after-world :
      (r : Result CliError A × World) (next : A → Cli B) (w : World)
      → r.1 ≡ w
      → ((a : A) (v : World) → (next a v).1 ≡ v)
      → (after r next).1 ≡ w
  after-world (ok a, v) next w h k = k a v ∙ h
  after-world (err e, v) next w h k = h
  after-world (panic, v) next w h k = h

read_snapshot-world :
    (file : Option (Result String IdentitySnapshot)) (w : World) → (read_snapshot file w).1 ≡ w
unfolding read_snapshot
read_snapshot-world none w = refl
read_snapshot-world (some (ok s)) w = refl
read_snapshot-world (some (err s)) w = refl
read_snapshot-world (some panic) w = refl

pub print_all_lem :
    (lines : List String) (w : World)
    → print_all lines w ≡ (ok tt, record w { printed = w.printed ++ lines })
unfolding print_all
print_all_lem [] w = rw (append-nil w.printed)
print_all_lem (line ∷ more) w =
    print_all_lem more (record w { printed = w.printed ++ line ∷ [] })
    ∙ ap (λ ls. (ok tt, record w { printed = ls })) (append_assoc w.printed (line ∷ []) more)

module _ (lib : Libraries) (moment : Moment lib) where
  request_for-world :
      (f : CheckFlags) (nl : Option String) (w : World) → (request_for lib moment f nl w).1 ≡ w
  unfolding request_for
  request_for-world f none w = refl
  request_for-world f (some utterance) w = refl

  deployed_config-world : (w : World) → (deployed_config lib moment w).1 ≡ w
  unfolding deployed_config
  deployed_config-world w =
      after-world
        (context_err _ (map_err policy (policy_set_from_deployed lib.cedar lib.schema w.disk)), w) _
        w refl
        (λ deployed v.
          after-world (read_snapshot v.snapshot v) _ v (read_snapshot-world v.snapshot v)
            (λ snap u. refl))

  -- What a check that does not fail has done.
  pub record IsChecked (f : CheckFlags) (w : World) (status : ℕ) (left : World) : Type 0 where
    pub request : AuthzRequest
    pub config : EvaluatorConfig lib.cedar
    pub decision : AuthzDecision
    pub asked : (request_for lib moment f f.nl w).0 ≡ ok request
    pub deployed : (deployed_config lib moment w).0 ≡ ok config
    pub decided : evaluate lib.cedar (moment.stamp 0) request config ≡ ok decision
    pub exits : status ≡ (if is_deny decision.effect then 2 else 0)
    pub logged : left.audit ≡ some (append_audit lib.lines decision (or_else w.audit []))
    pub shown : left.printed ≡ w.printed ++ decision_lines lib.pretty_request decision

  -- What is left after a decision.
  abbrev with_decision : AuthzDecision → World → World
  with_decision d w = record w {
    audit = some (append_audit lib.lines d (or_else w.audit []));
    printed = w.printed ++ decision_lines lib.pretty_request d;
  }

  status_of : AuthzDecision → ℕ
  status_of d = if is_deny d.effect then 2 else 0

  if-world :
      (b : Bool) (w : World)
      → ◌≡◌ {A = Result CliError ℕ × World}
          (if◌then◌else◌ {A = Cli ℕ} b (return 2) (return 0) w)
          (ok (if b then 2 else 0), w)
  if-world true w = refl
  if-world false w = refl

  conclude_lem :
      (req : AuthzRequest) (cfg : EvaluatorConfig lib.cedar) (w : World) (d : AuthzDecision)
      → evaluate lib.cedar (moment.stamp 0) req cfg ≡ ok d
      → conclude lib moment req cfg w ≡ (ok (status_of d), with_decision d w)
  unfolding conclude status_of paac.Cli.Decisions.audit
  conclude_lem req cfg w d e =
      rw e
        (rw (print_all_lem (decision_lines lib.pretty_request d) _) (if-world (is_deny d.effect) _))

  -- A check that does not fail has evaluated its request under the deployed policies; it exits with 2
  -- exactly for a denial and with 0 otherwise, has added the decision to the audit file, and has
  -- printed it.
  pub check_cmd-IsChecked :
      (f : CheckFlags) (w : World) (status : ℕ)
      → (check_cmd lib moment f w).0 ≡ ok status
      → IsChecked f w status (check_cmd lib moment f w).1
  unfolding check_cmd conclude status_of
  check_cmd-IsChecked f w status h =
      let (req, v, e1, s1) = after-eq-ok (request_for lib moment f f.nl w) _ h in
      let (cfg, u, e2, s2) =
        after-eq-ok (deployed_config lib moment v) _ (ap (λ p. p.0) (sym s1) ∙ h) in
      let vw : v ≡ w = ap (λ p. p.1) (sym e1) ∙ request_for-world f f.nl w in
      let uv : u ≡ v = ap (λ p. p.1) (sym e2) ∙ deployed_config-world v in
      let (d, t, e3, s3) =
        after-eq-ok (map_err kernel (evaluate lib.cedar (moment.stamp 0) req cfg), u) _
          (ap (λ p. p.0) (sym s2) ∙ (ap (λ p. p.0) (sym s1) ∙ h)) in
      let decided = map_err-eq-ok kernel _ (ap (λ p. p.0) e3) in
      let whole : check_cmd lib moment f w ≡ (ok (status_of d), with_decision d w) =
        s1
        ∙ (s2
            ∙ (conclude_lem req cfg u d decided
                ∙ ap (λ x. (ok (status_of d), with_decision d x)) (uv ∙ vw))) in
      record {
        request = req;
        config = cfg;
        decision = d;
        asked = ap (λ p. p.0) e1;
        deployed = ap (λ x. (deployed_config lib moment x).0) (sym vw) ∙ ap (λ p. p.0) e2;
        decided = decided;
        exits = ok-injective (sym h ∙ ap (λ p. p.0) whole);
        logged = ap (λ p. p.1.audit) whole;
        shown = ap (λ p. p.1.printed) whole;
      }
