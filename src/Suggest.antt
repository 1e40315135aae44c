-- ===== src/Suggest.antt =====
-- crates/authz-suggest/src: the audit file, and the policies that are suggested from it.
pub mod Laws
use Prim.Native.Nat.{ℕ, zero, suc, ◌-◌}
use paac.Prelude.{
  String, ◌^^◌, Bool, ◌&&◌, Option, none, some, List, [], ◌∷◌, ◌++◌, map, find, length, leb,
  is_empty, trim, to_ascii_uppercase, to_ascii_lowercase, show_nat, str_eq, if◌then◌else◌,
}
use paac.Core.Decision.{DecisionEffect, AuthzDecision, is_deny}
use paac.Identity.Model.{IdentitySnapshot}
use paac.Identity.Drafts.{draft_policies_from_groups}
use paac.Policy.Store.{Disk, write_draft}

pub record AuditRecord : Type 0 where
  pub decision_id : String
  pub principal : String
  pub action : String
  pub resource : String
  pub subject : Option String
  pub decision : DecisionEffect
  pub policy_revision : String
  pub signature_key_id : Option String
  pub latency_ms : ℕ
  pub timestamp : String
  pub decision_full : AuthzDecision

unfoldable pub from_decision : AuthzDecision → ℕ → AuditRecord
from_decision d latency = record {
  decision_id = d.evidence.decision_id;
  principal = d.evidence.request.principal.id;
  action = d.evidence.request.action.name;
  resource = d.evidence.request.resource.kind;
  subject = elim d.evidence.request.subject [ none ↦ none | some s ↦ some s.id ];
  decision = d.effect;
  policy_revision = d.evidence.policy_revision;
  signature_key_id = d.evidence.policy_signature;
  latency_ms = latency;
  timestamp = d.evidence.timestamp;
  decision_full = d;
}

-- `serde_json` for the two kinds of lines; a record is printed on one line.
pub record LineFormat : Type 0 where
  pub print : AuditRecord → String
  pub read_record : String → Option AuditRecord
  pub read_decision : String → Option AuthzDecision

-- The last elements of a list, `limit` at most.
unfoldable pub skip : ℕ → List AuditRecord → List AuditRecord
skip n [] = []
skip zero (r ∷ rs) = r ∷ rs
skip (suc n) (r ∷ rs) = skip n rs

-- The file is its lines in order.
module _ (format : LineFormat) where
  unfoldable pub append_audit_record : AuditRecord → List String → List String
  append_audit_record r file = file ++ format.print r ∷ []

  unfoldable pub append_audit : AuthzDecision → List String → List String
  unfolding append_audit_record from_decision
  append_audit d file = append_audit_record (from_decision d 0) file

  -- What a line adds to the records: one, or nothing.
  unfoldable pub line_records : String → List AuditRecord
  unfolding from_decision
  line_records line = if is_empty (trim line) then [] else elim (format.read_record line) [
    | some r ↦ r ∷ []
    | none ↦ elim (format.read_decision line) [ some d ↦ from_decision d 0 ∷ [] | none ↦ [] ]
  ]

  unfoldable pub read_audit_records : List String → List AuditRecord
  unfolding line_records
  read_audit_records [] = []
  read_audit_records (line ∷ file) = line_records line ++ read_audit_records file

  unfoldable pub find_decision : String → List String → Option AuthzDecision
  unfolding read_audit_records
  find_decision id file = elim (find (λ r. str_eq r.decision_id id) (read_audit_records file)) [
    | none ↦ none
    | some r ↦ some r.decision_full
  ]

  unfoldable pub recent_decisions : ℕ → List String → List AuditRecord
  unfolding read_audit_records skip
  recent_decisions limit file = let all = read_audit_records file in skip (length all - limit) all

-- `load_legacy_decisions`
unfoldable pub load_legacy_decisions : LineFormat → List String → List AuthzDecision
load_legacy_decisions format file = map (λ r. r.decision_full) (read_audit_records format file)

pub record Suggestion : Type 0 where
  pub name : String
  pub rationale : String
  pub dsl : String

-- The counts of the denials, by action and resource.
abbrev pub Counts : Type 0
Counts = List ((String × String) × ℕ)

abbrev pub same_key : String × String → String × String → Bool
same_key a b = str_eq a.0 b.0 && str_eq a.1 b.1

-- `*counts.entry(key).or_default() += 1`
unfoldable pub increment : String × String → Counts → Counts
increment key [] = (key, 1) ∷ []
increment key ((k, n) ∷ counts) =
    let rest = increment key counts in if same_key k key then (k, suc n) ∷ counts else (k, n) ∷ rest

unfoldable pub key_of : AuditRecord → String × String
key_of r = (to_ascii_uppercase r.action, to_ascii_uppercase r.resource)

unfoldable pub tally : List AuditRecord → Counts → Counts
unfolding increment key_of
tally [] counts = counts
tally (r ∷ rs) counts =
    tally rs (if is_deny r.decision then increment (key_of r) counts else counts)

unfoldable pub suggestion : (String × String) × ℕ → Suggestion
suggestion ((action, resource), n) =
    let name =
      "audit_deny_" ^^ (to_ascii_lowercase action ^^ ("_" ^^ to_ascii_lowercase resource)) in
    record {
      name = name;
      rationale = show_nat n ^^ (" DENY decisions observed for " ^^ (action ^^ (" " ^^ resource)));
      dsl =
          "policy \""
          ^^ (name
              ^^ ("\"\ndeny "
                  ^^ (action
                      ^^ (" "
                          ^^ (resource
                              ^^ ("\n# suggested from "
                                  ^^ (show_nat n ^^ " audit DENY events\n")))))));
    }

-- the loop over the counts
unfoldable pub suggest_counts : Counts → List Suggestion
unfolding suggestion
suggest_counts [] = []
suggest_counts (entry ∷ counts) =
    let rest = suggest_counts counts in if leb 2 entry.1 then suggestion entry ∷ rest else rest

unfoldable pub suggest_from_snapshot : IdentitySnapshot → List Suggestion
suggest_from_snapshot snapshot =
    record {
      name = "ldap-group-drafts";
      rationale = "Generated from LDAP/group sync; review before commit.";
      dsl = draft_policies_from_groups snapshot;
    }
    ∷ []

unfoldable pub suggest_from_audit : LineFormat → List String → List Suggestion
unfolding tally suggest_counts
suggest_from_audit format file = suggest_counts (tally (read_audit_records format file) [])

unfoldable pub write_suggestions : List Suggestion → Disk → List String × Disk
write_suggestions [] d = ([], d)
write_suggestions (s ∷ more) d =
    let (written, after) = write_suggestions more (write_draft s.name s.dsl d) in
    (s.name ∷ written, after)
