-- ===== src/Suggest/Laws.antt =====
-- What the audit file of crates/authz-suggest/src gives back, and what is suggested from it.
use Prim.Native.Nat.{ℕ, suc, ◌+◌, ◌≤◌}
use mathlib.Core.List.{append_assoc, append-nil}
use paac.Prelude.{
  String, Bool, true, false, ◌&&◌, ◌≡◌, refl, sym, ap, subst, ◌∙◌, inl, inr, Option, none, some,
  List, [], ◌∷◌, ◌++◌, find, Some, leb, is_empty, trim, arith, str_eq, eq_iff, Bool-cases,
  if◌then◌else◌,
}
use paac.Core.Decision.{AuthzDecision, is_deny}
use paac.Suggest.{
  AuditRecord, LineFormat, append_audit_record, line_records, read_audit_records, find_decision,
  Suggestion, Counts, same_key, increment, key_of, tally, suggestion, suggest_counts,
  suggest_from_audit,
}

-- How many records deny this action on this resource.
abbrev pub denials : String × String → List AuditRecord → ℕ
denials key [] = 0
denials key (r ∷ rs) =
    let rest = denials key rs in
    if is_deny r.decision && same_key (key_of r) key then suc rest else rest

abbrev counted : String × String → Counts → ℕ
counted key [] = 0
counted key ((k, n) ∷ counts) = if same_key k key then n else counted key counts

counted-increment :
    (key k : String × String) (counts : Counts)
    → counted key (increment k counts)
      ≡ (if same_key k key then suc (counted key counts) else counted key counts)
unfolding increment
counted-increment key k [] = ground arith
counted-increment key k ((j, n) ∷ counts) =
    let rest = counted-increment key k counts in
    ground (
      arith,
      eq_iff j.0 k.0,
      eq_iff j.1 k.1,
      eq_iff j.0 key.0,
      eq_iff j.1 key.1,
      eq_iff k.0 key.0,
      eq_iff k.1 key.1,
    )

counted-tally :
    (key : String × String) (rs : List AuditRecord) (counts : Counts)
    → counted key (tally rs counts) ≡ denials key rs + counted key counts
unfolding tally
counted-tally key [] counts = omega arith
counted-tally key (r ∷ rs) counts = elim (Bool-cases (is_deny r.decision)) [
  | inl denied ↦
      let rest = counted-tally key rs (increment (key_of r) counts) in
      let step = counted-increment key (key_of r) counts in rw denied (ground arith)
  | inr other ↦ rw other (counted-tally key rs counts)
]

same_key-eq : (a b : String × String) → same_key a b ≡ true → a ≡ b
same_key-eq (a0, a1) (b0, b1) h = ground (arith, eq_iff a0 b0, eq_iff a1 b1)

-- A suggestion for the key, with its count.
abbrev pub IsFor : String × String → ℕ → Suggestion → Type 0
IsFor key n s = s ≡ suggestion (key, n)

suggest_counts-Some :
    (key : String × String) (counts : Counts)
    → 2 ≤ counted key counts
    → Some (IsFor key (counted key counts)) (suggest_counts counts)
unfolding suggest_counts
suggest_counts-Some key [] h = ground arith
suggest_counts-Some key ((k, n) ∷ counts) h = elim (Bool-cases (same_key k key)) [
  | inl same ↦
      let enough : leb 2 n ≡ true = ground arith in
      rw (same, enough) (inl (ap (λ j. suggestion (j, n)) (same_key-eq k key same)))
  | inr differs ↦
      let later = suggest_counts-Some key counts (rw differs at h) in
      elim (Bool-cases (leb 2 n)) [
        | inl enough ↦ rw (differs, enough) (inr later)
        | inr few ↦ rw (differs, few) later
      ]
]

-- An action on a resource that the records of the audit file deny twice or more is suggested, with
-- the number of its denials.
pub suggest_from_audit-Some :
    (format : LineFormat) (file : List String) (key : String × String)
    → 2 ≤ denials key (read_audit_records format file)
    → Some
        (IsFor key (denials key (read_audit_records format file)))
        (suggest_from_audit format file)
unfolding suggest_from_audit
suggest_from_audit-Some format file key h =
    let rs = read_audit_records format file in
    let same : counted key (tally rs []) ≡ denials key rs = counted-tally key rs [] ∙ omega arith in
    subst (λ n. Some (IsFor key n) (suggest_counts (tally rs []))) same
      (suggest_counts-Some key (tally rs []) (rw same h))

read-append :
    (format : LineFormat) (file : List String) (line : String)
    → read_audit_records format (file ++ line ∷ [])
      ≡ read_audit_records format file ++ line_records format line
unfolding read_audit_records
read-append format [] line = append-nil (line_records format line)
read-append format (l ∷ file) line = rw (read-append format file line) (
    sym (
      append_assoc (line_records format l) (read_audit_records format file)
        (line_records format line)))

find-append :
    (p : AuditRecord → Bool) (xs : List AuditRecord) (r : AuditRecord)
    → find p (xs ++ r ∷ [])
      ≡ (elim (find p xs) [ none ↦ if p r then some r else none | some x ↦ some x ])
find-append p [] r = refl
find-append p (x ∷ xs) r = let rest = find-append p xs r in ground arith

-- the first of two answers that is there
abbrev pub or_later : Option AuthzDecision → Option AuthzDecision → Option AuthzDecision
or_later none o = o
or_later (some d) o = some d

-- If its line is not blank and reads back, appending a record to the audit file changes what is found for an identifier only where nothing
-- was found before, and then only for the record's own identifier, which gives its decision.
pub find_decision-append_audit_record :
    (format : LineFormat) (r : AuditRecord) (file : List String) (id : String)
    → is_empty (trim (format.print r)) ≡ false
    → format.read_record (format.print r) ≡ some r
    → find_decision format id (append_audit_record format r file)
      ≡ or_later
          (find_decision format id file)
          (if str_eq r.decision_id id then some r.decision_full else none)
unfolding find_decision append_audit_record line_records
find_decision-append_audit_record format r file id not_blank reads_back =
    let line : line_records format (format.print r) ≡ r ∷ [] =
      rw (line_records, not_blank, reads_back) refl in
    let all = read-append format file (format.print r) in
    let found = find-append (λ x. str_eq x.decision_id id) (read_audit_records format file) r in
    ground arith
