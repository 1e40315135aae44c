-- ===== src/Core/Evaluate/Laws.antt =====
-- What `evaluate` of crates/authz-core/src/evaluate.rs promises about a decision.
use paac.Prelude.{
  String, Bool, true, false, ◌&&◌, ◌≡◌, ◌≢◌, ◌↔◌, ◌⊎◌, inl, inr, refl, none, some, List, [], ◌∷◌,
  map, ap, ◌^^◌, ◌++◌, if◌then◌else◌, ok, err, >>=-eq-ok, ok-injective, any_iff, subst,
  Option-cases, first, All, Some, arith, str_eq, eq_iff,
}
use paac.Core.Error.{invalid_request}
use paac.Core.Request.{
  manager_of, direct_reports, Relationship, Subject, AuthzRequest, is_blank, validate,
}
use paac.Core.Decision.{default_note, DecisionEffect, allow, deny, review, AuthzDecision, Stamp}
use paac.Core.Cedar.{Cedar, Verdict, Response}
use paac.Core.Evaluate.{
  human_id, EvaluatorConfig, by_default, effect_from_cedar, determining, matched_policy, prepare,
  decide, evaluate,
}
use paac.Core.Evaluate.Context.{is_reporting, reports_to, subject_in_direct_reports}

-- The kinds that make the target a report of the source.
abbrev pub Reports : String → String → Relationship → Type 0
Reports manager report r =
    ((r.kind ≡ direct_reports) ⊎ (r.kind ≡ manager_of)) × (r.source ≡ manager) × (r.target ≡ report)

is_report_iff :
    (m s : String) (r : Relationship)
    → ((is_reporting r.kind && (str_eq r.source m && str_eq r.target s)) ≡ true) ↔ Reports m s r
unfolding is_reporting
is_report_iff m s r = (
  λ h. ground (arith, eq_iff r.source m, eq_iff r.target s),
  λ h. ground (arith, eq_iff r.source m, eq_iff r.target s),
)

reports_to_iff :
    (m s : String) (rels : List Relationship)
    → (reports_to m s rels ≡ true) ↔ Some (Reports m s) rels
unfolding reports_to
reports_to_iff m s rels = any_iff _ (Reports m s) (is_report_iff m s) rels

no_subject : (req : AuthzRequest) → req.subject ≡ none → subject_in_direct_reports req ≡ true → ⊥
unfolding subject_in_direct_reports
no_subject req absent h = ground arith

-- The context says that the subject is a report of the principal exactly when the request has a
-- subject and one of its relationships, a direct report or a manager edge, leads from the principal
-- to that subject.
pub subject_in_direct_reports_iff :
    (req : AuthzRequest)
    → (subject_in_direct_reports req ≡ true) ↔ (
        (s : Subject) × (req.subject ≡ some s)
        × Some (Reports req.principal.id s.id) req.relationships)
unfolding subject_in_direct_reports
subject_in_direct_reports_iff req = elim (Option-cases req.subject) [
  | inl absent ↦ (λ h. absurd (no_subject req absent h), λ e. cc (absent, e.1))
  | inr (s, present) ↦
      let rule = reports_to_iff req.principal.id s.id req.relationships in
      (
        λ h. (s, present, rule.0 (rw (present, subject_in_direct_reports) at h)),
        λ e.
            let same : e.0 ≡ s = ground arith in
            rw (present, subject_in_direct_reports)
              (rule.1
                (subst (λ x. Some (Reports req.principal.id x.id) req.relationships) same e.2)),
      )
]

-- What the evidence of a decision says of it.
pub record IsConsistent (d : AuthzDecision) : Type 0 where
  pub same_effect : d.evidence.effect ≡ d.effect
  pub not_review : d.effect ≢ review
  pub matched : All (λ m. m.effect ≡ d.effect) d.evidence.matched_policies
  -- an allow without a matched policy is determined by nothing, a deny by the default
  pub determined :
      (d.evidence.determining_policy ≡ first d.evidence.matched_policies)
      ⊎ ((d.evidence.matched_policies ≡ [])
          × (d.effect ≡ deny)
          × (d.evidence.determining_policy ≡ some by_default))

effect-ne-review : (v : Verdict) → effect_from_cedar v ≢ review
unfolding effect_from_cedar
effect-ne-review Verdict.allow e = cc
effect-ne-review Verdict.deny e = cc

effect-allow_iff : (v : Verdict) → (effect_from_cedar v ≡ allow) ↔ (v ≡ Verdict.allow)
unfolding effect_from_cedar
effect-allow_iff Verdict.allow = (λ e. refl, λ e. refl)
effect-allow_iff Verdict.deny = (λ e. cc, λ e. cc)

effect-deny_iff : (v : Verdict) → (effect_from_cedar v ≡ deny) ↔ (v ≡ Verdict.deny)
unfolding effect_from_cedar
effect-deny_iff Verdict.allow = (λ e. cc, λ e. cc)
effect-deny_iff Verdict.deny = (λ e. refl, λ e. refl)

-- What a refused request lacks, by whether its principal and its action are blank.
abbrev pub complaint : Bool → Bool → String
complaint true name = "principal.id is required"
complaint false true = "action.name is required"
complaint false false = "resource.kind is required"

module _ (engine : Cedar) where
  open engine use {PolicyId, is_authorized}

  -- What a decision says of the request, of the stamp, of the configuration and of the authorizer's
  -- response to the one question that it was asked.
  pub record IsDecided (stamp : Stamp) (req : AuthzRequest) (cfg : EvaluatorConfig engine)
      (q : engine.Request) (es : engine.Entities) (d : AuthzDecision) : Type 0 where
    pub valid : validate req ≡ ok tt
    pub prepared : prepare engine req cfg ≡ ok (q, es)
    pub allowed :
        (d.effect ≡ allow) ↔ ((is_authorized q cfg.policy_set es).decision ≡ Verdict.allow)
    pub denied : (d.effect ≡ deny) ↔ ((is_authorized q cfg.policy_set es).decision ≡ Verdict.deny)
    pub request : d.evidence.request ≡ req
    pub decision_id : d.evidence.decision_id ≡ stamp.id
    pub timestamp : d.evidence.timestamp ≡ stamp.now
    pub policy_revision : d.evidence.policy_revision ≡ cfg.policy_revision
    pub policy_signature : d.evidence.policy_signature ≡ cfg.policy_signature
    pub ids :
        map (λ m. m.id) d.evidence.matched_policies
        ≡ map (human_id engine cfg.policy_set) (is_authorized q cfg.policy_set es).reason
    pub notes :
        (let errors =
            map (λ e. "cedar diagnostic: " ^^ e) (is_authorized q cfg.policy_set es).errors in
          (d.evidence.notes ≡ errors) ⊎ (d.evidence.notes ≡ errors ++ default_note ∷ []))

  module _ (stamp : Stamp) (req : AuthzRequest) (cfg : EvaluatorConfig engine) where
    ids-matched :
        (effect : DecisionEffect) (ids : List PolicyId)
        → map (λ m. m.id) (map (matched_policy engine cfg.policy_set effect) ids)
          ≡ map (human_id engine cfg.policy_set) ids
    unfolding matched_policy
    ids-matched effect [] = refl
    ids-matched effect (i ∷ ids) =
        ap (λ l. human_id engine cfg.policy_set i ∷ l) (ids-matched effect ids)

    notes-cases :
        (b : Bool) (notes : List String)
        → (let noted = if b then notes ++ default_note ∷ [] else notes in
            (noted ≡ notes) ⊎ (noted ≡ notes ++ default_note ∷ []))
    notes-cases true notes = inr refl
    notes-cases false notes = inl refl

    decide-IsDecided :
        (q : engine.Request) (es : engine.Entities)
        → validate req ≡ ok tt
        → prepare engine req cfg ≡ ok (q, es)
        → IsDecided stamp req cfg q es
            (decide engine stamp req cfg (is_authorized q cfg.policy_set es))
    unfolding decide
    decide-IsDecided q es valid prepared =
        let response = is_authorized q cfg.policy_set es in
        record {
          valid = valid;
          prepared = prepared;
          allowed = effect-allow_iff response.decision;
          denied = effect-deny_iff response.decision;
          request = refl;
          decision_id = refl;
          timestamp = refl;
          policy_revision = refl;
          policy_signature = refl;
          ids = ids-matched (effect_from_cedar response.decision) response.reason;
          notes = notes-cases _ (map (λ e. "cedar diagnostic: " ^^ e) response.errors);
        }

    -- A decision is made only of a valid request, by one call of the authorizer on what was
    -- prepared for it: it allows and it denies exactly when the authorizer does, it holds the
    -- request, the stamp's identifier and time and the configuration's revision and signature, its
    -- matched policies bear the names of those that the authorizer gives as its reason, in their
    -- order, and its notes are the authorizer's errors, with at most the note of the default behind
    -- them.
    pub evaluate-ok :
        (d : AuthzDecision)
        → evaluate engine stamp req cfg ≡ ok d
        → (q : engine.Request) × (es : engine.Entities) × IsDecided stamp req cfg q es d
    unfolding evaluate prepare
    evaluate-ok d h =
        let ((q, es), prepared, decided) = >>=-eq-ok (prepare engine req cfg) _ h in
        let (u, valid, _) = >>=-eq-ok (validate req) _ prepared in
        (
          q,
          es,
          subst (IsDecided stamp req cfg q es) (ok-injective decided)
              (decide-IsDecided q es valid prepared),
        )

    determining-cases :
        (ids : List PolicyId) (v : Verdict)
        → (let ms = map (matched_policy engine cfg.policy_set (effect_from_cedar v)) ids in
            (determining ms (effect_from_cedar v) ≡ first ms)
            ⊎ ((ms ≡ [])
                × (effect_from_cedar v ≡ deny)
                × (determining ms (effect_from_cedar v) ≡ some by_default)))
    unfolding determining effect_from_cedar
    determining-cases [] Verdict.allow = inl refl
    determining-cases [] Verdict.deny = inr (refl, refl, refl)
    determining-cases (i ∷ ids) v = inl refl

    matched-effect :
        (effect : DecisionEffect) (ids : List PolicyId)
        → All (λ m. m.effect ≡ effect) (map (matched_policy engine cfg.policy_set effect) ids)
    unfolding matched_policy
    matched-effect effect [] = tt
    matched-effect effect (i ∷ ids) = (refl, matched-effect effect ids)

    decide-IsConsistent : (r : Response PolicyId) → IsConsistent (decide engine stamp req cfg r)
    unfolding decide
    decide-IsConsistent r = record {
      same_effect = refl;
      not_review = effect-ne-review r.decision;
      matched = matched-effect (effect_from_cedar r.decision) r.reason;
      determined = determining-cases r.reason r.decision;
    }

    -- The evidence of every decision is consistent with it.
    pub evaluate-IsConsistent :
        (d : AuthzDecision) → evaluate engine stamp req cfg ≡ ok d → IsConsistent d
    unfolding evaluate decide
    evaluate-IsConsistent d h =
        let ((q, es), prepared, decided) = >>=-eq-ok (prepare engine req cfg) _ h in
        subst IsConsistent (ok-injective decided)
          (decide-IsConsistent (is_authorized q cfg.policy_set es))

    -- A request with a blank principal, action or resource kind is refused with the complaint about
    -- the first of these, whatever Cedar would say.
    pub evaluate_invalid :
        ((is_blank req.principal.id ≡ true)
          ⊎ (is_blank req.action.name ≡ true)
          ⊎ (is_blank req.resource.kind ≡ true))
        → evaluate engine stamp req cfg
          ≡ err (invalid_request (complaint (is_blank req.principal.id) (is_blank req.action.name)))
    unfolding evaluate prepare validate
    evaluate_invalid h = ground arith
