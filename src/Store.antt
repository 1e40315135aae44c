-- ===== src/Store.antt =====
-- crates/authz-store/src/db.rs: the tables that the gateway's decisions and revisions go to. A write
-- to the database is taken to succeed, and JSON to be the value that it holds.
pub mod Writer
pub mod Migrate
pub mod Laws
pub mod Written
use Prim.Native.Nat.{ℕ, zero, suc}
use paac.Prelude.{
  String, Bool, Option, none, some, List, [], ◌∷◌, ◌++◌, IndexMap, lookup, insert, map, show_nat,
  str_eq, if◌then◌else◌,
}
use paac.Json.{Json, null, number, text, object, field, end}
use paac.Core.Decision.{AuthzDecision, DecisionEffect, allow, deny, review}

-- One record of the channel to the audit writer. The latency is below 2 ^ 63 milliseconds, so that
-- the cast to `i64` keeps it.
pub record AuditWrite : Type 0 where
  pub decision_id : String
  pub principal : String
  pub action : String
  pub resource : String
  pub subject : Option String
  pub decision : String
  pub policy_revision : String
  pub signature_key_id : Option String
  pub latency_ms : ℕ
  pub timestamp : String
  pub evidence : AuthzDecision

pub record RevisionRow : Type 0 where
  pub message : String
  pub content_sha256 : Option String
  pub signature_key_id : Option String
  pub signature_b64 : Option String
  pub dsl : String
  pub cedar : String
  pub deployed : Bool

-- A row of identity_cache, and one of resource_catalog.
pub record IdentityRow : Type 0 where
  pub payload : Json
  pub source : String
  pub synced_at : String

pub record ResourceRow : Type 0 where
  pub kind : String
  pub payload : Json

-- The channel, and the tables audit_log, decision_evidence, policy_revisions, identity_cache and
-- resource_catalog. The rows of audit_log are in the order of their identifiers.
pub record PaacStore : Type 0 where
  pub audit_queue : List AuditWrite
  pub audit_log : List AuditWrite
  pub decision_evidence : IndexMap AuthzDecision
  pub policy_revisions : IndexMap RevisionRow
  pub identity_cache : IndexMap IdentityRow
  pub resource_catalog : IndexMap ResourceRow

abbrev pub empty_store : PaacStore
empty_store = record {
  audit_queue = [];
  audit_log = [];
  decision_evidence = [];
  policy_revisions = [];
  identity_cache = [];
  resource_catalog = [];
}

-- `format!("{:?}", effect).to_ascii_uppercase()`
unfoldable pub effect_name : DecisionEffect → String
effect_name allow = "ALLOW"
effect_name deny = "DENY"
effect_name review = "REVIEW"

-- `a.or_else(b)`
abbrev pub or_other : {A : Type 0} → Option A → Option A → Option A
or_other none o = o
or_other (some a) o = some a

unfoldable pub audit_write : AuthzDecision → ℕ → Option String → AuditWrite
unfolding effect_name
audit_write d latency key = record {
  decision_id = d.evidence.decision_id;
  principal = d.evidence.request.principal.id;
  action = d.evidence.request.action.name;
  resource = d.evidence.request.resource.kind;
  subject = elim d.evidence.request.subject [ none ↦ none | some s ↦ some s.id ];
  decision = effect_name d.effect;
  policy_revision = d.evidence.policy_revision;
  signature_key_id = or_other key d.evidence.policy_signature;
  latency_ms = latency;
  timestamp = d.evidence.timestamp;
  evidence = d;
}

unfoldable pub enqueue_audit : AuthzDecision → ℕ → Option String → PaacStore → PaacStore
unfolding audit_write
enqueue_audit d latency key s = record s {
  audit_queue = s.audit_queue ++ audit_write d latency key ∷ [];
}

-- The rows that are not replaced by a decision's.
unfoldable pub without : String → List AuditWrite → List AuditWrite
without id [] = []
without id (w ∷ ws) = let rest = without id ws in if str_eq w.decision_id id then rest else w ∷ rest

-- The writer's two statements for one record. A row of `audit_log` with the same decision is
-- replaced, which gives the new row the last place. The source goes on where a statement fails, which
-- is taken not to happen.
unfoldable pub write_one : AuditWrite → PaacStore → PaacStore
unfolding without
write_one w s = record s {
  audit_log = without w.decision_id s.audit_log ++ w ∷ [];
  decision_evidence = insert w.decision_id w.evidence s.decision_evidence;
}

unfoldable pub write_all : List AuditWrite → PaacStore → PaacStore
write_all [] s = s
write_all (w ∷ ws) s = write_all ws (write_one w s)

-- The writer, when the channel is empty again; the size of its batches makes no difference.
unfoldable pub flush : PaacStore → PaacStore
unfolding write_all
flush s = write_all s.audit_queue (record s { audit_queue = [] })

unfoldable pub upsert_policy_revision : String → RevisionRow → PaacStore → PaacStore
upsert_policy_revision revision row s = record s {
  policy_revisions = insert revision row s.policy_revisions;
}

unfoldable pub get_evidence : String → PaacStore → Option AuthzDecision
get_evidence id s = lookup id s.decision_evidence

unfoldable pub cache_identity : String → Json → String → String → PaacStore → PaacStore
cache_identity principal_id payload source now s = record s {
  identity_cache =
      insert principal_id (record { payload = payload; source = source; synced_at = now })
        s.identity_cache;
}

unfoldable pub get_cached_identity : String → PaacStore → Option Json
get_cached_identity principal_id s = elim (lookup principal_id s.identity_cache) [
  | none ↦ none
  | some row ↦ some row.payload
]

unfoldable pub upsert_catalog_resource : String → String → Json → PaacStore → PaacStore
upsert_catalog_resource id kind payload s = record s {
  resource_catalog = insert id (record { kind = kind; payload = payload }) s.resource_catalog;
}

abbrev opt_text : Option String → Json
opt_text none = null
opt_text (some t) = text t

-- The object made of a row; the evidence is the JSON of the decision.
unfoldable pub audit_json : (AuthzDecision → Json) → AuditWrite → Json
audit_json json_of w = object (
    field "decision_id" (text w.decision_id) (
      field "principal" (text w.principal) (
        field "action" (text w.action) (
          field "resource" (text w.resource) (
            field "subject" (opt_text w.subject) (
              field "decision" (text w.decision) (
                field "policy_revision" (text w.policy_revision) (
                  field "signature_key_id" (opt_text w.signature_key_id) (
                    field "latency_ms" (number (show_nat w.latency_ms)) (
                      field "timestamp" (text w.timestamp)
                        (field "evidence" (json_of w.evidence) end)))))))))))

-- `ORDER BY id DESC`
unfoldable pub newest_first : List AuditWrite → List AuditWrite
newest_first [] = []
newest_first (w ∷ ws) = newest_first ws ++ w ∷ []

-- `LIMIT`
unfoldable pub limited : ℕ → List AuditWrite → List AuditWrite
limited zero ws = []
limited (suc n) [] = []
limited (suc n) (w ∷ ws) = w ∷ limited n ws

unfoldable pub recent_rows : ℕ → PaacStore → List AuditWrite
unfolding newest_first limited
recent_rows limit s = limited limit (newest_first s.audit_log)

unfoldable pub recent_audit : (AuthzDecision → Json) → ℕ → PaacStore → List Json
unfolding recent_rows audit_json
recent_audit json_of limit s = map (audit_json json_of) (recent_rows limit s)
