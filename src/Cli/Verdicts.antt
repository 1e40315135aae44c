-- ===== src/Cli/Verdicts.antt =====
-- The policy tests of crates/authz-cli/src/main.rs: when they succeed.
use Prim.Native.Nat.{ℕ, suc}
use paac.Prelude.{
  true, List, [], ◌∷◌, Result, ok, err, map_err, map_err-eq-ok, ok-injective, ltb, ◌≡◌, refl, sym,
  ap, ◌∙◌, arith, Bool-cases, inl, inr, if◌then◌else◌, ◌↔◌,
}
use paac.Core.Decision.{AuthzDecision, DecisionEffect, allow, deny, review}
use paac.Core.Evaluate.{EvaluatorConfig, evaluate}
use paac.Cli.State.{CliError, kernel, Libraries, Moment, World, Cli, fail, return}
use paac.Cli.Policies.{Case, same_effect, run_cases, policy_test, policies_to_test, demo_test_cases}
use paac.Cli.Outcomes.{after-eq-ok, after-ok}

same_effect_iff : (a b : DecisionEffect) → (same_effect a b ≡ true) ↔ (a ≡ b)
unfolding same_effect
same_effect_iff allow allow = (λ h. refl, λ h. refl)
same_effect_iff allow deny = (λ h. cc, λ h. cc)
same_effect_iff allow review = (λ h. cc, λ h. cc)
same_effect_iff deny allow = (λ h. cc, λ h. cc)
same_effect_iff deny deny = (λ h. refl, λ h. refl)
same_effect_iff deny review = (λ h. cc, λ h. cc)
same_effect_iff review allow = (λ h. cc, λ h. cc)
same_effect_iff review deny = (λ h. cc, λ h. cc)
same_effect_iff review review = (λ h. refl, λ h. refl)

verdict-zero :
    (k : ℕ) (e : CliError) (w : World)
    → (if◌then◌else◌ {A = Cli (Unit {0})} (ltb 0 k) (fail e) (return tt) w).0 ≡ ok tt
    → k ≡ 0
verdict-zero k e w h = elim (Bool-cases (ltb 0 k)) [
  | inl failing ↦
      let never : ◌≡◌ {A = Result CliError (Unit {0})} (err e) (ok tt) = rw failing at h in
      absurd (cc never)
  | inr passing ↦ ground arith
]

module _ (lib : Libraries) (moment : Moment lib) where
  -- Each case is decided as it is expected, the first with the stamp `n`.
  abbrev pub AllPass : EvaluatorConfig lib.cedar → List Case → ℕ → Type 0
  AllPass cfg [] n = Unit
  AllPass cfg (c ∷ cases) n =
      ((d : AuthzDecision) × (evaluate lib.cedar (moment.stamp n) c.request cfg ≡ ok d)
        × (d.effect ≡ c.expect))
      × AllPass cfg cases (suc n)

  run_cases-AllPass :
      (cfg : EvaluatorConfig lib.cedar) (cases : List Case) (n failed : ℕ) (w : World)
      → AllPass cfg cases n
      → (run_cases lib moment cfg cases n failed w).0 ≡ ok failed
  unfolding run_cases
  run_cases-AllPass cfg [] n failed w h = refl
  run_cases-AllPass cfg (c ∷ cases) n failed w ((d, decided, expected), more) = rw decided (
      rw ((same_effect_iff d.effect c.expect).1 expected)
        (run_cases-AllPass cfg cases (suc n) failed _ more))

  run_cases-zero :
      (cfg : EvaluatorConfig lib.cedar) (cases : List Case) (n failed : ℕ) (w : World)
      → (run_cases lib moment cfg cases n failed w).0 ≡ ok 0
      → (failed ≡ 0) × AllPass cfg cases n
  unfolding run_cases
  run_cases-zero cfg [] n failed w h = (ok-injective h, tt)
  run_cases-zero cfg (c ∷ cases) n failed w h =
      let (d, v, e, same) =
        after-eq-ok (map_err kernel (evaluate lib.cedar (moment.stamp n) c.request cfg), w) _ h in
      let decided = map_err-eq-ok kernel _ (ap (λ p. p.0) e) in
      let (none_failed, more) =
        run_cases-zero cfg cases (suc n) _ _ (ap (λ p. p.0) (sym same) ∙ h) in
      elim (Bool-cases (same_effect d.effect c.expect)) [
        | inl pass ↦ ((rw pass at none_failed), ((d, decided, (same_effect_iff _ _).0 pass), more))
        | inr fails ↦ absurd (omega (arith, rw fails at none_failed))
      ]

  -- The policy tests succeed exactly when the policies are found and every case is decided as it is
  -- expected.
  pub policy_test_iff :
      (w : World)
      → ((policy_test lib moment w).0 ≡ ok tt) ↔ (
          (cfg : EvaluatorConfig lib.cedar) × ((policies_to_test lib w).0 ≡ ok cfg)
          × AllPass cfg demo_test_cases 0)
  unfolding policy_test
  policy_test_iff w = (
    λ h.
        let (cfg, v, e, s) = after-eq-ok (policies_to_test lib w) _ h in
        let (k, u, e2, s2) =
          after-eq-ok (run_cases lib moment cfg demo_test_cases 0 0 v) _
            (ap (λ p. p.0) (sym s) ∙ h) in
        let none_failed =
          verdict-zero k _ u (ap (λ p. p.0) (sym s2) ∙ (ap (λ p. p.0) (sym s) ∙ h)) in
        let all =
          run_cases-zero cfg demo_test_cases 0 0 v
            (ap (λ p. p.0) e2 ∙ ap (λ n. ok n) none_failed) in
        (cfg, ap (λ p. p.0) e, all.1),
    λ (cfg, found, all).
        ap (λ p. p.0)
          (after-ok (policies_to_test lib w) _ found
            ∙ after-ok (run_cases lib moment cfg demo_test_cases 0 0 (policies_to_test lib w).1) _
                (run_cases-AllPass cfg demo_test_cases 0 0 _ all)),
  )
