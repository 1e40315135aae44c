-- ===== src/Bridge/Defs.antt =====
-- crates/authz-llm-bridge/src: extract.rs, hybrid.rs and lib.rs.
use Prim.Native.Nat.{ℕ}
use paac.Prelude.{
  String, ◌^^◌, Bool, ◌&&◌, ◌||◌, Option, none, some, List, [], ◌∷◌, IndexMap, Result, ok, err,
  panic, ◌>>=◌, map_err, any, find, contains, to_ascii_lowercase, str_eq, if◌then◌else◌,
}
use paac.Core.Error.{AuthzError, Authz}
use paac.Core.Request.{Principal, direct_reports, AuthzRequest}
use paac.Core.Builder.{
  AuthzRequestBuilder, empty, principal_obj, action, resource, subject, context_kv, relationship,
  build,
}
use paac.Catalog.{CatalogResource, ResourceCatalog, find_resource, insert_some}

pub data BridgeError : Type 0 where
  msg : String → BridgeError
  authz : AuthzError → BridgeError

abbrev pub Bridged : Type 0 → Type 0
Bridged A = Result BridgeError A

-- `f32`, and the first match of a regular expression in a text (`Regex::captures`).
pub record Native : Type 1 where
  pub Float : Type 0
  -- the number with that many hundredths
  pub hundredths : ℕ → Float
  pub show : Float → String
  pub at_least : Float → Float → Bool
  pub capture : String → String → Option String

-- `contains` of one of the words
unfoldable pub mentions : List String → String → Bool
mentions words lower = any (λ w. contains lower w) words

abbrev pub table_pattern : String
table_pattern = "(db\\.[a-z0-9_.]+)"

abbrev pub collection_pattern : String
collection_pattern = "(vec\\.[a-z0-9_.]+)"

-- The loop over `extraction.direct_reports`.
unfoldable pub add_reports : String → List String → AuthzRequestBuilder → AuthzRequestBuilder
add_reports id [] b = b
add_reports id (dr ∷ drs) b =
    add_reports id drs (relationship (record { kind = direct_reports; source = id; target = dr }) b)

-- What the catalog makes of the extracted resource: its kind, its identifier, its attributes.
pub record Bound : Type 0 where
  pub kind : String
  pub id : Option String
  pub attrs : IndexMap String

abbrev catalog_attrs : CatalogResource → IndexMap String
catalog_attrs res =
    insert_some "sensitivity" res.sensitivity (insert_some "department" res.department [])

-- The test by which a resource is found for a kind alone.
unfoldable pub fits_kind : String → CatalogResource → Bool
fits_kind kind r =
    str_eq (to_ascii_lowercase r.kind) (to_ascii_lowercase kind)
    || contains (to_ascii_lowercase r.name) (to_ascii_lowercase kind)

unfoldable pub bind_resource : Option ResourceCatalog → String → Option String → Bound
unfolding insert_some
bind_resource none kind id = record { kind = kind; id = id; attrs = [] }
bind_resource (some cat) kind (some id) = elim (find_resource cat id) [
  | some res ↦ record { kind = res.kind; id = some id; attrs = catalog_attrs res }
  | none ↦ record { kind = kind; id = some id; attrs = [] }
]
bind_resource (some cat) kind none = elim (find (fits_kind kind) cat.resources) [
  | some res ↦ record { kind = res.kind; id = some res.id; attrs = catalog_attrs res }
  | none ↦ record { kind = kind; id = none; attrs = [] }
]

module _ (lib : Native) where
  open lib use {Float, hundredths, show, at_least, capture}

  pub record NlExtraction : Type 0 where
    pub utterance : String
    pub action : String
    pub resource_kind : String
    pub resource_id : Option String
    pub subject_id : Option String
    pub subject_groups : List String
    pub direct_reports : List String
    pub confidence : Float

  -- An extraction with no subject and no reports.
  abbrev pub plain : String → String → String → Option String → ℕ → NlExtraction
  plain utterance action kind id confidence = record {
    utterance = utterance;
    action = action;
    resource_kind = kind;
    resource_id = id;
    subject_id = none;
    subject_groups = [];
    direct_reports = [];
    confidence = hundredths confidence;
  }

  -- A travel expense of one employee, with alice as the direct report.
  abbrev pub travel : String → String → String → ℕ → NlExtraction
  travel utterance subject group confidence = record {
    utterance = utterance;
    action = "READ";
    resource_kind = "TRAVEL_EXPENSE";
    resource_id = some "db.hr.travel_expenses";
    subject_id = some subject;
    subject_groups = group ∷ [];
    direct_reports = "employee:alice" ∷ [];
    confidence = hundredths confidence;
  }

  -- The heuristics in their order; `none` is the error of the last line.
  unfoldable pub heuristics : String → String → Option NlExtraction
  unfolding mentions
  heuristics utterance lower =
      if mentions ("ceo" ∷ "executive" ∷ []) lower
        && mentions
            ("spend" ∷ ("expense" ∷ ("trip" ∷ ("travel" ∷ ("compensation" ∷ ("salary" ∷ []))))))
            lower
      then some (travel utterance "employee:CEO" "EXECUTIVE" 95)
      else if mentions ("sql_query" ∷ ("run sql" ∷ ("query table" ∷ []))) lower
      then some (plain utterance "TOOL_INVOKE" "DB_TABLE" (capture table_pattern lower) 85)
      else if contains lower "export" && mentions ("payroll" ∷ "salary" ∷ []) lower
      then some (plain utterance "EXPORT" "SALARY" (some "api.export.payroll") 90)
      else if mentions ("retrieve" ∷ ("search documents" ∷ ("vector" ∷ []))) lower
      then some (plain utterance "READ" "VECTOR_COLLECTION" (capture collection_pattern lower) 80)
      else if mentions ("my profile" ∷ "my employee record" ∷ []) lower
      then some (plain utterance "READ" "EMPLOYEE_PROFILE" (some "employee.self_profile") 75)
      else if contains lower "alice" && mentions ("expense" ∷ "travel" ∷ []) lower
      then some (travel utterance "employee:alice" "ENGINEERING" 90)
      else none

  unfoldable pub extract_structured : String → Bridged NlExtraction
  extract_structured utterance = elim (heuristics utterance (to_ascii_lowercase utterance)) [
    | some ext ↦ ok ext
    | none ↦ err (msg ("could not extract structured AuthzRequest from: " ^^ utterance))
  ]

  abbrev add_subject : Option String → List String → AuthzRequestBuilder → Authz AuthzRequestBuilder
  add_subject none groups b = ok b
  add_subject (some s) groups b = subject s groups b

  -- the three context values of every proposal
  unfoldable pub proposal_context : NlExtraction → AuthzRequestBuilder → AuthzRequestBuilder
  proposal_context ext b = context_kv "proposal_only" "true" (
      context_kv "extraction_confidence" (show ext.confidence)
        (context_kv "nl_utterance" ext.utterance b))

  -- the fallible part of the builder's chain
  unfoldable pub assemble : Principal → NlExtraction → Bound → Authz AuthzRequestBuilder
  assemble principal ext bound = do
    b0 ← principal_obj principal empty
    b1 ← action ext.action b0
    b2 ← resource bound.kind bound.id bound.attrs b1
    add_subject ext.subject_id ext.subject_groups b2

  unfoldable pub propose : Principal → NlExtraction → Bound → Authz AuthzRequest
  propose principal ext bound = do
    b ← assemble principal ext bound
    build (add_reports principal.id ext.direct_reports (proposal_context ext b))

  unfoldable pub bind_extraction :
      Principal → NlExtraction → Option ResourceCatalog → Bridged AuthzRequest
  bind_extraction principal ext catalog = do
    req ←
        map_err authz
          (propose principal ext (bind_resource catalog ext.resource_kind ext.resource_id))
    ok (record req { acting_as = some "agent:nl-bridge"; on_behalf_of = some principal.id })

  -- `CatalogAwareBridge::build_request`; `MockLlmProvider` is it without a catalog.
  unfoldable pub build_request : Principal → Option ResourceCatalog → String → Bridged AuthzRequest
  build_request default_principal catalog utterance = do
    ext ← extract_structured utterance
    bind_extraction default_principal ext catalog

  -- `MockClassifierProvider::classify`; `lower` is the utterance after `to_lowercase`.
  unfoldable pub mock_classify : String → String → Bridged NlExtraction
  unfolding mentions
  mock_classify utterance lower =
      if mentions ("salary" ∷ "pay" ∷ []) lower
      then ok (record {
        utterance = utterance;
        action = "EXPORT";
        resource_kind = "SALARY";
        resource_id = some "api.export.payroll";
        subject_id = none;
        subject_groups = "PAYROLL" ∷ [];
        direct_reports = [];
        confidence = hundredths 95;
      })
      else err (msg "classifier intent unresolved")

  -- The extraction that a hybrid extractor binds; an error of the classifier falls through.
  unfoldable pub classified : Option (String → Bridged NlExtraction) → String → Bridged NlExtraction
  classified none utterance = ok (plain utterance "READ" "UNKNOWN" none 10)
  classified (some cls) utterance = elim (cls utterance) [
    | ok ext ↦ ok ext
    | err e ↦ ok (plain utterance "READ" "UNKNOWN" none 10)
    | panic ↦ panic
  ]

  unfoldable pub choose : Option (String → Bridged NlExtraction) → String → Bridged NlExtraction
  choose classifier utterance = elim (extract_structured utterance) [
    | ok ext ↦
        if at_least ext.confidence (hundredths 70) then ok ext else classified classifier utterance
    | err e ↦ classified classifier utterance
    | panic ↦ panic
  ]

  -- `HybridExtractor::build_proposal`
  unfoldable pub build_proposal :
      Option ResourceCatalog
      → Option (String → Bridged NlExtraction)
      → Principal
      → String
      → Bridged AuthzRequest
  build_proposal catalog classifier principal utterance = do
    ext ← choose classifier utterance
    bind_extraction principal ext catalog
