-- ===== src/Core/Ids/Laws.antt =====
-- The laws of the validated identifiers of crates/authz-core/src/ids.rs.
use paac.Prelude.{
  String, ◌^^◌, true, false, ◌≡◌, ◌↔◌, ok, err, trim, is_empty, is_whitespace, arith, Bool-cases,
  inl, inr,
}
use paac.Prelude.Trim.{AllChars, trim_idem, is_empty-trim_iff}
use paac.Core.Error.{invalid_request}
use paac.Core.Ids.{IdKind, Identifier, label, new}

blank_new :
    (k : IdKind) (s : String)
    → is_empty (trim s) ≡ true
    → new k s ≡ err (invalid_request (label k ^^ " must be non-empty"))
unfolding new
blank_new k s h = rw h

-- A text that is not blank is accepted, trimmed.
pub new_of_text :
    (k : IdKind) (s : String) → is_empty (trim s) ≡ false → new k s ≡ ok (record { text = trim s })
unfolding new
new_of_text k s h = rw h

-- An accepted identifier is the trimmed input, is accepted again as it is, and the input was not
-- all white space.
pub new-ok :
    (k : IdKind) (s : String) (i : Identifier k)
    → new k s ≡ ok i
    → (i.text ≡ trim s) × (new k i.text ≡ ok i) × ¬ (AllChars is_whitespace s)
new-ok k s i h = elim (Bool-cases (is_empty (trim s))) [
  | inl blank ↦ cc (blank_new k s blank)
  | inr text ↦
      let same : i.text ≡ trim s = ground (arith, new_of_text k s text) in
      (
        same,
        rw same (rw (new_of_text k (trim s) (rw (trim_idem s) text)) (rw (trim_idem s))),
        λ white. cc ((is_empty-trim_iff s).1 white),
      )
]

-- The input is refused exactly when it is all white space, and the error names the identifier.
pub new-err_iff :
    (k : IdKind) (s : String)
    → (new k s ≡ err (invalid_request (label k ^^ " must be non-empty"))) ↔ AllChars is_whitespace s
new-err_iff k s = (
  λ h. elim (Bool-cases (is_empty (trim s))) [
    | inl blank ↦ (is_empty-trim_iff s).0 blank
    | inr text ↦ cc (new_of_text k s text)
  ],
  λ white. blank_new k s ((is_empty-trim_iff s).1 white),
)
