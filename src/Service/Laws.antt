-- ===== src/Service/Laws.antt =====
-- The answers of the handlers of crates/authz-gateway/src/main.rs, and the states that they reach.
use Prim.Native.Nat.{ℕ}
use text.Mathlib.TextEquality.{eq_iff}
use paac.Prelude.{
  String, true, List, [], ◌∷◌, ◌++◌, has, lookup, lookup-insert, ok, err, panic, map_err, str_eq,
  ok-injective, ◌≡◌, ◌>>=◌, refl, sym, ap, ◌∙◌, subst, ◌⊎◌, inl, inr, arith, eq_refl, Bool-cases,
  if◌then◌else◌,
}
use paac.Core.Cedar.{Cedar}
use paac.Core.Error.{Authz, AuthzError}
use paac.Policy.Error.{Fallible, PolicyError}
use paac.Proxy.Error.{show_authz, show_policy}
use paac.Core.Request.{AuthzRequest}
use paac.Core.Decision.{AuthzDecision, Stamp}
use paac.Core.Evaluate.{EvaluatorConfig, evaluate}
use paac.Policy.Store.{PolicyRevision, Disk, policy_set_from_deployed}
use paac.Board.Laws.{has-append}
use paac.Suggest.{LineFormat, from_decision, append_audit, append_audit_record}
use paac.Service.{
  AppState, app_new, Served, explain, deployed_config, decide, remember, conclude, check,
}

module _ (engine : Cedar) (schema : String) (lines : LineFormat) where
  conclude-ok :
      (r : Served AuthzDecision) (s : AppState) {d : AuthzDecision}
      → (conclude engine schema lines r s).0 ≡ ok d
      → (r ≡ ok d) × ((conclude engine schema lines r s).1 ≡ remember engine schema lines d s)
  unfolding conclude
  conclude-ok (ok e) s h = (h, ap (λ x. remember engine schema lines x s) (ok-injective h))
  conclude-ok (err e) s h = absurd (cc h)
  conclude-ok panic s h = absurd (cc h)

  explain-remember :
      (d : AuthzDecision) (id : String) (s : AppState)
      → explain id (remember engine schema lines d s)
        ≡ (if str_eq d.evidence.decision_id id then ok d else explain id s)
  unfolding explain remember
  explain-remember d id s =
      rw (lookup-insert d.evidence.decision_id id d s.decisions) (ground arith)

  -- After a decision, it is what is explained under its identifier, and what is explained under any
  -- other one has not changed.
  pub explain-check :
      (stamp : Stamp) (req : AuthzRequest) (d : AuthzDecision) (id : String) (s : AppState)
      → (check engine schema lines stamp req s).0 ≡ ok d
      → explain id (check engine schema lines stamp req s).1
        ≡ (if str_eq d.evidence.decision_id id then ok d else explain id s)
  unfolding check
  explain-check stamp req d id s h = ap (explain id) (conclude-ok _ s h).1 ∙ explain-remember d id s

  conclude-err :
      (r : Served AuthzDecision) (s : AppState) {e : ℕ × String}
      → (conclude engine schema lines r s).0 ≡ err e
      → (r ≡ err e) × ((conclude engine schema lines r s).1 ≡ s)
  unfolding conclude
  conclude-err (ok d) s h = absurd (cc h)
  conclude-err (err e) s h = (h, refl)
  conclude-err panic s h = absurd (cc h)

  -- The status of an error.
  abbrev code : {A : Type 0} → Served A → ℕ
  code (err e) = e.0
  code _ = 0

  config-err :
      (r : Fallible (engine.PolicySet × PolicyRevision)) (e : ℕ × String)
      → (next : engine.PolicySet × PolicyRevision → EvaluatorConfig engine)
      → (map_err (λ x. (503, show_policy x)) r >>= λ deployed. ok (next deployed)) ≡ err e
      → (e.0 ≡ 503) × ((x : PolicyError) × (r ≡ err x))
  config-err (ok a) e next h = absurd (cc h)
  config-err (err x) e next h = (sym (ap code h), (x, refl))
  config-err panic e next h = absurd (cc h)

  evaluate-err :
      (r : Authz AuthzDecision) (e : ℕ × String)
      → map_err (λ x. (400, show_authz x)) r ≡ err e
      → (e.0 ≡ 400) × ((x : AuthzError) × (r ≡ err x))
  evaluate-err (ok d) e h = absurd (cc h)
  evaluate-err (err x) e h = (sym (ap code h), (x, refl))
  evaluate-err panic e h = absurd (cc h)

  -- How a request is refused: the deployed policies cannot be loaded, or its evaluation under them
  -- fails.
  abbrev pub Refusal : Stamp → AuthzRequest → Disk → ℕ × String → Type 0
  Refusal stamp req store e =
      ((e.0 ≡ 503) × ((x : PolicyError) × (policy_set_from_deployed engine schema store ≡ err x)))
      ⊎ ((e.0 ≡ 400)
          × ((cfg : EvaluatorConfig engine) × (x : AuthzError) × (deployed_config engine schema
                  lines store
                ≡ ok cfg)
              × (evaluate engine stamp req cfg ≡ err x)))

  decide-Refusal :
      (stamp : Stamp) (req : AuthzRequest) (store : Disk) (e : ℕ × String)
      → (r : Served (EvaluatorConfig engine)) → deployed_config engine schema lines store ≡ r
      → (r >>= λ cfg. map_err (λ x. (400, show_authz x)) (evaluate engine stamp req cfg)) ≡ err e
      → Refusal stamp req store e
  unfolding deployed_config
  decide-Refusal stamp req store e (ok cfg) found h =
      let (status, (x, failed)) = evaluate-err _ e h in inr (status, (cfg, x, found, failed))
  decide-Refusal stamp req store e (err x) found h =
      let same : x ≡ e = cc in
      inl (
        config-err _ e _ (
          subst
            (λ y.
              ◌≡◌ {A = Served (EvaluatorConfig engine)} (deployed_config engine schema lines store)
                (err y))
            same found))
  decide-Refusal stamp req store e panic found h = absurd (cc h)

  -- A request that is refused changes nothing; its status is 503 where the deployed policies cannot be
  -- loaded, and 400 where they can and the evaluation fails.
  pub check-IsRefused :
      (stamp : Stamp) (req : AuthzRequest) (e : ℕ × String) (s : AppState)
      → (check engine schema lines stamp req s).0 ≡ err e
      → ((check engine schema lines stamp req s).1 ≡ s) × Refusal stamp req s.store e
  unfolding check decide
  check-IsRefused stamp req e s h =
      let (refused, same) = conclude-err _ s h in
      (same, decide-Refusal stamp req s.store e _ refl refused)

  -- What can have happened to the service: it answers requests, while others deploy policies and write
  -- to the audit file.
  pub data Reaches : AppState → Type 0 where
    started : (store : Disk) (audit : List String) → Reaches (app_new store audit)
    answered :
        {s : AppState} (stamp : Stamp) (req : AuthzRequest)
        → Reaches s
        → Reaches (check engine schema lines stamp req s).1
    deployed : {s : AppState} (store : Disk) → Reaches s → Reaches (record s { store = store })
    logged :
        {s : AppState} (line : String)
        → Reaches s
        → Reaches (record s { audit = s.audit ++ line ∷ [] })

  -- A decision under its identifier, which a request got under the policies of some store, and whose
  -- line is in the audit file.
  pub record IsRecorded (audit : List String) (id : String) (d : AuthzDecision) : Type 0 where
    pub named : d.evidence.decision_id ≡ id
    pub made :
        (stamp : Stamp) × (req : AuthzRequest) × (store : Disk) × (decide engine schema lines stamp
            req store
          ≡ ok d)
    pub written : has audit (lines.print (from_decision d 0)) ≡ true

  -- Everything that is explained is recorded.
  abbrev IsHonest : AppState → Type 0
  IsHonest s = (id : String) (d : AuthzDecision) → explain id s ≡ ok d → IsRecorded s.audit id d

  has-kept :
      (audit : List String) (line more : String)
      → has audit line ≡ true
      → has (audit ++ more ∷ []) line ≡ true
  has-kept audit line more h = rw (has-append audit (more ∷ []) line) (ground arith)

  has-last : (audit : List String) (line : String) → has (audit ++ line ∷ []) line ≡ true
  has-last audit line = rw (has-append audit (line ∷ []) line) (rw (eq_refl line) (ground arith))

  kept :
      (audit : List String) (more id : String) (d : AuthzDecision)
      → IsRecorded audit id d
      → IsRecorded (audit ++ more ∷ []) id d
  kept audit more id d r = record {
    named = r.named;
    made = r.made;
    written = has-kept audit _ more r.written;
  }

  remember-IsHonest :
      (stamp : Stamp) (req : AuthzRequest) (d : AuthzDecision) (s : AppState)
      → IsHonest s
      → decide engine schema lines stamp req s.store ≡ ok d
      → IsHonest (remember engine schema lines d s)
  unfolding remember append_audit append_audit_record
  remember-IsHonest stamp req d s honest made id found h =
      elim (Bool-cases (str_eq d.evidence.decision_id id)) [
        | inl same ↦
            let this : d ≡ found = ok-injective (rw (explain-remember d id s, same) at h) in
            subst (IsRecorded (s.audit ++ lines.print (from_decision d 0) ∷ []) id) this (record {
              named = (eq_iff d.evidence.decision_id id).0 same;
              made = (stamp, req, s.store, made);
              written = has-last s.audit _;
            })
        | inr other ↦
            kept s.audit _ id found (honest id found (rw (explain-remember d id s, other) at h))
      ]

  conclude-IsHonest :
      (stamp : Stamp) (req : AuthzRequest) (r : Served AuthzDecision) (s : AppState)
      → IsHonest s
      → decide engine schema lines stamp req s.store ≡ r
      → IsHonest (conclude engine schema lines r s).1
  unfolding conclude
  conclude-IsHonest stamp req (ok d) s honest made = remember-IsHonest stamp req d s honest made
  conclude-IsHonest stamp req (err e) s honest made = honest
  conclude-IsHonest stamp req panic s honest made = honest

  Reaches-IsHonest : {s : AppState} → Reaches s → IsHonest s
  unfolding app_new explain check lookup
  Reaches-IsHonest (started store audit) id d h = absurd (cc h)
  Reaches-IsHonest (answered {s} stamp req r) id d h =
      conclude-IsHonest stamp req _ s (Reaches-IsHonest r) refl id d h
  Reaches-IsHonest (deployed {s} store r) id d h = Reaches-IsHonest r id d h
  Reaches-IsHonest (logged {s} line r) id d h = kept s.audit line id d (Reaches-IsHonest r id d h)

  -- In every state that the service reaches, whatever is deployed and written to the audit file
  -- meanwhile, a decision that is explained has the identifier that was asked for, was made for a
  -- request under the policies of a store, and has its line in the audit file.
  pub explain-IsRecorded :
      (s : AppState) (id : String) (d : AuthzDecision)
      → Reaches s
      → explain id s ≡ ok d
      → IsRecorded s.audit id d
  explain-IsRecorded s id d reached h = Reaches-IsHonest reached id d h
