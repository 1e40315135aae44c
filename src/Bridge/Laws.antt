-- ===== src/Bridge/Laws.antt =====
-- What a proposal of crates/authz-llm-bridge/src holds, whatever the utterance says.
use mathlib.Core.List.{append_assoc, append-nil}
use paac.Prelude.{
  String, ◌≡◌, refl, sym, ap, subst, ◌∙◌, true, Option, none, some, List, [], ◌∷◌, ◌++◌, map,
  lookup, lookup-insert, ok, >>=-eq-ok, ok-injective, map_err, map_err-eq-ok, arith, trim,
  to_ascii_lowercase, Option-cases, inl, inr, Some,
}
use paac.Core.Request.{Principal, Subject, Relationship, direct_reports, AuthzRequest, validate}
use paac.Core.Ids.{new}
use paac.Core.Evaluate.Context.{subject_in_direct_reports}
use paac.Core.Evaluate.Laws.{Reports, subject_in_direct_reports_iff}
use paac.Core.Builder.{
  AuthzRequestBuilder, principal_obj, action, resource, subject, context_kv, relationship, build,
  record_delegation,
}
use paac.Core.Builder.Laws.{build-IsBuiltFrom}
use paac.Catalog.{ResourceCatalog}
use paac.Bridge.Defs.{
  Native, authz, NlExtraction, Bound, bind_resource, add_reports, proposal_context, assemble,
  propose, bind_extraction, heuristics, extract_structured,
}

-- The edge from the principal to a report.
abbrev pub edge : String → String → Relationship
edge id dr = record { kind = direct_reports; source = id; target = dr }

add_reports-eq :
    (id : String) (drs : List String) (b : AuthzRequestBuilder)
    → add_reports id drs b ≡ record b { relationships = b.relationships ++ map (edge id) drs }
unfolding add_reports relationship
add_reports-eq id [] b = rw append-nil
add_reports-eq id (dr ∷ drs) b = add_reports-eq id drs _ ∙ rw append_assoc

abbrev pub subject_name : Option Subject → Option String
subject_name none = none
subject_name (some s) = some s.id

abbrev pub trimmed : Option String → Option String
trimmed none = none
trimmed (some s) = some (trim s)

module _ (lib : Native) (p : Principal) (ext : NlExtraction lib) where
  -- The principal is the caller's, nothing of it is taken from the utterance; the request says that
  -- it is a proposal, that the bridge acts, and for whom; its edges are those of the extraction.
  pub record IsProposal (req : AuthzRequest) : Type 0 where
    pub principal : req.principal ≡ p
    pub acting_as : req.acting_as ≡ some "agent:nl-bridge"
    pub on_behalf_of : req.on_behalf_of ≡ some p.id
    pub proposal_only : lookup "proposal_only" req.context.values ≡ some "true"
    pub utterance : lookup "nl_utterance" req.context.values ≡ some ext.utterance
    pub relationships : req.relationships ≡ map (edge p.id) ext.direct_reports
    pub subject : subject_name req.subject ≡ trimmed ext.subject_id
    pub valid : validate req ≡ ok tt

  -- The builder before `build`, as far as the proposal's promises need it.
  record IsReady (b : AuthzRequestBuilder) : Type 0 where
    principal : b.principal ≡ some p
    context : b.context.values ≡ []
    relationships : b.relationships ≡ []
    chain : b.delegation_chain ≡ []
    subject : subject_name b.subject ≡ trimmed ext.subject_id

  assemble-IsReady :
      (bound : Bound) {b : AuthzRequestBuilder} → assemble lib p ext bound ≡ ok b → IsReady b
  unfolding assemble principal_obj action resource subject new
  assemble-IsReady bound h = ground arith

  -- The builder that `build` gets, and the request that it makes.
  built :
      (b : AuthzRequestBuilder) (req : AuthzRequest)
      → IsReady b
      → build (record (proposal_context lib ext b) {
        relationships =
            (proposal_context lib ext b).relationships ++ map (edge p.id) ext.direct_reports;
      })
        ≡ ok req
      → IsProposal (record req { acting_as = some "agent:nl-bridge"; on_behalf_of = some p.id })
  unfolding proposal_context context_kv record_delegation validate
  built b req ready h =
      let made = build-IsBuiltFrom _ req h in
      record {
        principal = ground arith;
        acting_as = refl;
        on_behalf_of = refl;
        proposal_only = rw made.context (rw ready.chain (simp lookup-insert));
        utterance = rw made.context (rw ready.chain (simp lookup-insert));
        relationships = ground arith;
        subject = ground arith;
        valid = made.valid;
      }

  -- Every bound extraction is a proposal in this sense.
  pub bind_extraction-IsProposal :
      (catalog : Option ResourceCatalog) (req : AuthzRequest)
      → bind_extraction lib p ext catalog ≡ ok req
      → IsProposal req
  unfolding bind_extraction propose
  bind_extraction-IsProposal catalog req h =
      let bound = bind_resource catalog ext.resource_kind ext.resource_id in
      let (raw, proposed, made) = >>=-eq-ok (map_err authz (propose lib p ext bound)) _ h in
      let (b, assembled, finished) =
        >>=-eq-ok (assemble lib p ext bound) _ (map_err-eq-ok _ _ proposed) in
      subst IsProposal (ok-injective made) (
        built b raw (assemble-IsReady bound assembled)
          (subst (λ x. build x ≡ ok raw) (add_reports-eq p.id ext.direct_reports _) finished))

heuristics-alice :
    (lib : Native) (utterance lower : String) (ext : NlExtraction lib)
    → heuristics lib utterance lower ≡ some ext
    → ext.subject_id ≡ some "employee:alice"
    → ext.direct_reports ≡ "employee:alice" ∷ []
unfolding heuristics
heuristics-alice lib utterance lower ext h alice = ground arith

one_edge :
    (req : AuthzRequest) (a : String)
    → subject_name req.subject ≡ some a
    → req.relationships ≡ edge req.principal.id a ∷ []
    → subject_in_direct_reports req ≡ true
one_edge req a named edges = elim (Option-cases req.subject) [
  | inl absent ↦ cc (ap subject_name absent)
  | inr (s, present) ↦
      let same : a ≡ s.id = ground arith in
      (subject_in_direct_reports_iff req).1 (
        s,
        present,
        subst (Some (Reports req.principal.id s.id)) (sym edges) (inl (inl refl, refl, same)),
      )
]

trim-alice : trim "employee:alice" ≡ "employee:alice"
unfolding trim
trim-alice = refl

-- Whoever asks about alice is told to be her manager: the context of the proposal says that the
-- subject is a direct report of the principal, though nothing but the utterance says so.
pub alice_reports_to_everyone :
    (lib : Native) (p : Principal) (catalog : Option ResourceCatalog) (utterance : String)
    (ext : NlExtraction lib) (req : AuthzRequest)
    → extract_structured lib utterance ≡ ok ext
    → ext.subject_id ≡ some "employee:alice"
    → bind_extraction lib p ext catalog ≡ ok req
    → subject_in_direct_reports req ≡ true
unfolding extract_structured
alice_reports_to_everyone lib p catalog utterance ext req extracted alice bound =
    let made = bind_extraction-IsProposal lib p ext catalog req bound in
    let found : heuristics lib utterance (to_ascii_lowercase utterance) ≡ some ext = ground arith in
    let reports = heuristics-alice lib utterance _ ext found alice in
    one_edge req "employee:alice" (made.subject ∙ (ap trimmed alice ∙ ap some trim-alice))
      (made.relationships ∙ (ap (map (edge p.id)) reports ∙ rw made.principal))
