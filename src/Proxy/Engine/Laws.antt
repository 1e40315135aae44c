-- ===== src/Proxy/Engine/Laws.antt =====
-- What `check`, `is_ready` and `allow_or_forbid` of crates/authz-llm-proxy/src/engine.rs promise.
use Prim.Native.Nat.{ℕ}
use paac.Prelude.{
  String, Bool, true, false, ◌&&◌, is_none, none, ◌⊎◌, sym, ◌≡◌, ◌↔◌, inl, inr, refl, ap, subst,
  Option, some, List, [], ◌∷◌, ◌++◌, ok, err, panic, lookup, lookup-insert, arith, eq_refl,
  Bool-cases, ok-injective,
}
use paac.Core.Error.{Authz}
use paac.Core.Request.{AuthzRequest}
use paac.Core.Decision.{AuthzDecision, allow, Stamp}
use paac.Core.Cedar.{Cedar}
use paac.Core.Evaluate.{evaluate}
use paac.Core.Evaluate.Laws.{evaluate-ok}
use paac.Core.HotCache.{load, to_evaluator_config}
use paac.Store.{
  AuditWrite, PaacStore, audit_write, enqueue_audit, write_one, write_all, flush, get_evidence,
}
use paac.Proxy.Error.{ProxyError, Proxied, not_ready}
use paac.Proxy.Engine.{
  AuthzEngine, is_unsigned, audit, answer, check, is_ready, only_allowed, allow_or_forbid, on_some,
  not_signed_text,
}

write_all-last :
    (ws : List AuditWrite) (w : AuditWrite) (s : PaacStore)
    → lookup w.decision_id (write_all (ws ++ w ∷ []) s).decision_evidence ≡ some w.evidence
unfolding write_all write_one
write_all-last [] w s = ground (
  arith,
  lookup-insert w.decision_id w.decision_id w.evidence s.decision_evidence,
  eq_refl w.decision_id,
)
write_all-last (v ∷ ws) w s = write_all-last ws w (write_one v s)

-- A decision that was put on the audit channel is the one that its identifier finds, once the
-- writer has taken everything from the channel.
pub get_evidence-enqueue_audit :
    (d : AuthzDecision) (latency : ℕ) (key : Option String) (s : PaacStore)
    → get_evidence d.evidence.decision_id (flush (enqueue_audit d latency key s)) ≡ some d
unfolding get_evidence flush enqueue_audit audit_write
get_evidence-enqueue_audit d latency key s =
    write_all-last s.audit_queue (audit_write d latency key) (record s { audit_queue = [] })

module _ (engine : Cedar) (stamp : Stamp) (latency : ℕ) (req : AuthzRequest)
    (e : AuthzEngine engine) where
  abbrev evaluated : Authz AuthzDecision
  evaluated = evaluate engine stamp req (to_evaluator_config engine (load engine e.bundle))

  answer-ok :
      (r : Authz AuthzDecision) {d : AuthzDecision}
      → (answer engine latency e r).0 ≡ ok d
      → (r ≡ ok d) × ((answer engine latency e r).1 ≡ audit engine d latency e)
  unfolding answer
  answer-ok (ok d) h = (
    ap ok (ok-injective h),
    subst (λ x. audit engine d latency e ≡ audit engine x latency e) (ok-injective h) refl,
  )
  answer-ok (err x) h = cc
  answer-ok panic h = cc

  answer-err :
      (r : Authz AuthzDecision) {x : ProxyError}
      → (answer engine latency e r).0 ≡ err x
      → (answer engine latency e r).1 ≡ e
  unfolding answer
  answer-err (ok d) h = cc
  answer-err (err y) h = refl
  answer-err panic h = refl

  -- A decision of `check` by the program's own steps.
  pub check-answered :
      (d : AuthzDecision)
      → (check engine stamp latency req e).0 ≡ ok d
      → (is_unsigned engine e ≡ false)
        × (evaluate engine stamp req (to_evaluator_config engine (load engine e.bundle)) ≡ ok d)
        × ((check engine stamp latency req e).1 ≡ audit engine d latency e)
  unfolding check
  check-answered d h = elim (Bool-cases (is_unsigned engine e)) [
    | inl unsigned ↦ let no = rw (unsigned, check) at h in cc
    | inr signed ↦
        let (same, after) = answer-ok evaluated (rw (signed, check) at h) in
        (signed, same, rw (signed, check) after)
  ]

  signed_cases :
      (required : Bool) (signature : Option String)
      → (required && is_none signature) ≡ false
      → (required ≡ false) ⊎ ((key : String) × (signature ≡ some key))
  signed_cases false signature h = inl refl
  signed_cases true none h = cc
  signed_cases true (some key) h = inr (key, refl)

  -- The engine `after` is the engine before with one record more, of the decision, at the end of its
  -- store's channel, if it has a store.
  pub record IsAudited (d : AuthzDecision) (after : AuthzEngine engine) : Type 0 where
    pub row : AuditWrite
    pub evidence : row.evidence ≡ d
    pub decision_id : row.decision_id ≡ d.evidence.decision_id
    pub principal : row.principal ≡ req.principal.id
    pub action : row.action ≡ req.action.name
    pub resource : row.resource ≡ req.resource.kind
    pub policy_revision : row.policy_revision ≡ d.evidence.policy_revision
    pub latency_ms : row.latency_ms ≡ latency
    pub sent : after ≡ record e {
      store =
          on_some {A = PaacStore}
            (λ s. record s { audit_queue = s.audit_queue ++ row ∷ [] })
            e.store;
    }

  audit-IsAudited :
      (d : AuthzDecision) → d.evidence.request ≡ req → IsAudited d (audit engine d latency e)
  unfolding audit enqueue_audit audit_write
  audit-IsAudited d h = record {
    row = audit_write d latency (load engine e.bundle).signature_key_id;
    evidence = refl;
    decision_id = refl;
    principal = ap (λ r. r.principal.id) h;
    action = ap (λ r. r.action.name) h;
    resource = ap (λ r. r.resource.kind) h;
    policy_revision = refl;
    latency_ms = refl;
    sent = refl;
  }

  -- A decision is given only where no signature is required or the active bundle has one; it is the
  -- kernel's decision under the active bundle, and the engine after it differs from the one before in
  -- nothing but one record at the end of the channel of its store, if it has one, with the decision,
  -- its identifier and revision, the principal, the action and the resource of the request and the
  -- latency.
  pub check-ok :
      (d : AuthzDecision)
      → (check engine stamp latency req e).0 ≡ ok d
      → ((e.require_signed ≡ false)
          ⊎ ((key : String) × ((load engine e.bundle).policy_signature ≡ some key)))
        × (evaluate engine stamp req (to_evaluator_config engine (load engine e.bundle)) ≡ ok d)
        × IsAudited d (check engine stamp latency req e).1
  unfolding is_unsigned
  check-ok d h =
      let (signed, same, after) = check-answered d h in
      let (q, es, decided) =
        evaluate-ok engine stamp req (to_evaluator_config engine (load engine e.bundle)) d same in
      (
        signed_cases e.require_signed (load engine e.bundle).policy_signature signed,
        same,
        subst (IsAudited d) (sym after) (audit-IsAudited d decided.request),
      )

  -- A refusal of `check` leaves the engine, its audit channel included, as it was.
  pub check-err :
      (x : ProxyError)
      → (check engine stamp latency req e).0 ≡ err x
      → (check engine stamp latency req e).1 ≡ e
  unfolding check
  check-err x h = elim (Bool-cases (is_unsigned engine e)) [
    | inl unsigned ↦ rw (unsigned, check) refl
    | inr signed ↦ rw (signed, check) (answer-err evaluated (rw (signed, check) at h))
  ]

  -- An engine that is not ready refuses every request with the status of a gateway that is not
  -- ready, and changes nothing.
  pub check_not_ready :
      (x : ProxyError)
      → is_ready engine e ≡ err x
      → check engine stamp latency req e ≡ (err (not_ready not_signed_text), e)
  unfolding check is_ready
  check_not_ready x h = elim (Bool-cases (is_unsigned engine e)) [
    | inl unsigned ↦ rw (unsigned, check) refl
    | inr signed ↦ let no = rw (signed, is_ready) at h in cc
  ]

  -- If the engine has a store, a decision of `check` is what the store gives for its identifier,
  -- once the writer is done.
  pub check-get_evidence :
      (d : AuthzDecision) (s : PaacStore)
      → e.store ≡ some s
      → (check engine stamp latency req e).0 ≡ ok d
      → on_some
          (λ t. get_evidence d.evidence.decision_id (flush t))
          (check engine stamp latency req e).1.store
        ≡ some (some d)
  unfolding audit
  check-get_evidence d s stored h =
      let (_, _, after) = check-answered d h in
      rw (after, audit, stored)
        (rw (get_evidence-enqueue_audit d latency (load engine e.bundle).signature_key_id s))

  only_allowed-ok :
      (r : Proxied AuthzDecision) {d : AuthzDecision}
      → only_allowed engine req r ≡ ok d
      → (r ≡ ok d) × (d.effect ≡ allow)
  unfolding only_allowed
  only_allowed-ok (ok d) h = ground arith
  only_allowed-ok (err x) h = cc
  only_allowed-ok panic h = cc

  -- `allow_or_forbid` lets through exactly the decisions of `check` that allow, and audits the
  -- others as well.
  pub allow_or_forbid_iff :
      (d : AuthzDecision)
      → ((allow_or_forbid engine stamp latency req e).0 ≡ ok d)
        ↔ (((check engine stamp latency req e).0 ≡ ok d) × (d.effect ≡ allow))
  unfolding allow_or_forbid only_allowed
  allow_or_forbid_iff d = (
    λ h. only_allowed-ok (check engine stamp latency req e).0 h,
    λ h. rw (allow_or_forbid, h.0, only_allowed, h.1) refl,
  )

  answer-keeps :
      (r : Authz AuthzDecision)
      → ((answer engine latency e r).1.bundle ≡ e.bundle)
        × ((answer engine latency e r).1.catalog ≡ e.catalog)
  unfolding answer audit
  answer-keeps (ok d) = (refl, refl)
  answer-keeps (err x) = (refl, refl)
  answer-keeps panic = (refl, refl)

  -- A check changes neither the bundle nor the catalog.
  pub check-keeps :
      ((check engine stamp latency req e).1.bundle ≡ e.bundle)
      × ((check engine stamp latency req e).1.catalog ≡ e.catalog)
  unfolding check
  check-keeps = elim (Bool-cases (is_unsigned engine e)) [
    | inl unsigned ↦ rw (unsigned, check) (refl, refl)
    | inr signed ↦ rw (signed, check) (answer-keeps evaluated)
  ]
