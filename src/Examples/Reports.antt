-- ===== src/Examples/Reports.antt =====
-- Tests of the board and of the suggestions in crates/authz-board/src and crates/authz-suggest/src.
use Prim.Native.Nat.{◌≤◌}
use paac.Prelude.{
  String, ◌≡◌, refl, arith, Bool, Option, none, some, List, [], ◌∷◌, has, any, Some, trim, is_empty,
  false, str_eq, if◌then◌else◌,
}
use paac.Core.Decision.{deny}
use paac.Suggest.{
  AuditRecord, LineFormat, from_decision, append_audit_record, read_audit_records, find_decision,
  suggest_from_audit,
}
use paac.Suggest.Laws.{
  denials, IsFor, or_later, suggest_from_audit-Some, find_decision-append_audit_record,
}
use paac.Examples.Toy.{decision}

-- Every line reads as the same denial.
abbrev pub denial : AuditRecord
denial = record (from_decision decision 0) {
  decision = deny;
  decision_id = "decision-2";
  action = "EXPORT";
  resource = "SALARY";
}

abbrev pub format : LineFormat
format = record {
  print = λ r. "{}";
  read_record = λ line. some denial;
  read_decision = λ line. none;
}

denied_twice :
    2 ≤ denials ("EXPORT", "SALARY") (read_audit_records format ("{}" ∷ ("" ∷ ("{}" ∷ []))))
unfolding read_audit_records paac.Prelude.trim paac.Suggest.key_of paac.Prelude.to_ascii_uppercase
denied_twice = omega arith

suggest_from_audit-Some_example :
    Some
      (IsFor
        ("EXPORT", "SALARY")
        (denials ("EXPORT", "SALARY") (read_audit_records format ("{}" ∷ ("" ∷ ("{}" ∷ []))))))
      (suggest_from_audit format ("{}" ∷ ("" ∷ ("{}" ∷ []))))
suggest_from_audit-Some_example =
    suggest_from_audit-Some format ("{}" ∷ ("" ∷ ("{}" ∷ []))) ("EXPORT", "SALARY") denied_twice

not_blank : is_empty (trim (format.print denial)) ≡ false
unfolding trim
not_blank = refl

find_decision-append_audit_record_example :
    find_decision format "decision-2" (append_audit_record format denial [])
    ≡ or_later
        (find_decision format "decision-2" [])
        (if str_eq denial.decision_id "decision-2" then some denial.decision_full else none)
find_decision-append_audit_record_example =
    find_decision-append_audit_record format denial [] "decision-2" not_blank refl
