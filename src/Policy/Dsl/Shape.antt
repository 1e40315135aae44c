-- ===== src/Policy/Dsl/Shape.antt =====
-- The policies that crates/authz-policy/src/dsl.rs reads are those that the text opens.
use mathlib.Core.List.{map-append, append_assoc, append-nil}
use paac.Prelude.{
  ℕ, ◌+◌, String, ◌≡◌, refl, ap, sym, ◌∙◌, Option, none, some, List, [], ◌∷◌, ◌++◌, map, ok, ok_or,
  >>=-eq-ok, ok-injective, ok_or-eq-ok, trim, is_empty, strip_prefix, lines, true, Bool-cases,
  Option-cases, inl, inr, arith,
}
use paac.Policy.Dsl.Defs.{
  DslPolicy, Partial, finish, strip_comment, parse_quoted_name, parse_when, parse_where,
  parse_unless, parse_action_resource, add_subject_in, Statement, when_line, effect_line,
  where_line, unless_line, run_statement, keywords, dispatch, close, ParseState, parse_line,
  parse_lines, parse_dsl, partial_new,
}

-- The name that a line opens a policy with, if it does.
abbrev pub header_of : String → List String
header_of line = elim (strip_prefix "policy " line) [
  | none ↦ []
  | some rest ↦ elim (parse_quoted_name rest) [ none ↦ [] | some id ↦ id ∷ [] ]
]

-- The names of all policies that the lines open, in their order.
abbrev pub headers : List String → List String
headers [] = []
headers (raw ∷ more) = header_of (trim (strip_comment raw)) ++ headers more

open_id : Option Partial → List String
open_id none = []
open_id (some p) = p.id ∷ []

ids : ParseState → List String
ids st = map (λ p. p.id) st.policies ++ open_id st.current

run_statement-id :
    (s : Statement) (rest : String) (p : Partial) (loc : ℕ) {p' : Partial}
    → run_statement s rest p loc ≡ ok p'
    → p'.id ≡ p.id
unfolding run_statement parse_when parse_where parse_unless parse_action_resource add_subject_in
run_statement-id when_line rest p loc h = ground arith
run_statement-id (effect_line e) rest p loc h = ground arith
run_statement-id where_line rest p loc h = ground arith
run_statement-id unless_line rest p loc h = ground arith

dispatch-id :
    (words : List (String × Statement)) (line : String) (p : Partial) (loc : ℕ) {p' : Partial}
    → dispatch words line p loc ≡ ok p'
    → p'.id ≡ p.id
unfolding dispatch
dispatch-id [] line p loc h = cc
dispatch-id ((word, s) ∷ more) line p loc h = elim (Option-cases (strip_prefix word line)) [
  | inl other ↦ dispatch-id more line p loc (rw (other, dispatch) at h)
  | inr (rest, found) ↦ run_statement-id s rest p loc (rw (found, dispatch) at h)
]

finish-id : (p : Partial) {q : DslPolicy} → finish p ≡ ok q → q.id ≡ p.id
unfolding finish
finish-id p h = ground arith

close-ids :
    (current : Option Partial) (done : List DslPolicy) {ps : List DslPolicy}
    → close current done ≡ ok ps
    → map (λ p. p.id) ps ≡ map (λ p. p.id) done ++ open_id current
unfolding close open_id
close-ids none done h = rw (sym (ok-injective h)) (sym (append-nil _))
close-ids (some p) done h =
    let (q, finished, same) = >>=-eq-ok (finish p) _ h in
    rw (sym (ok-injective same)) (rw map-append (rw (finish-id p finished)))

header-open :
    (line : String) {rest id : String}
    → strip_prefix "policy " line ≡ some rest
    → parse_quoted_name rest ≡ some id
    → header_of line ≡ id ∷ []
header-open line found named = rw (found, header_of) (rw (named))

header-other : (line : String) → strip_prefix "policy " line ≡ none → header_of line ≡ []
header-other line other = rw (other, header_of)

header-blank : (line : String) → is_empty line ≡ true → header_of line ≡ []
unfolding strip_prefix
header-blank String.[] h = refl
header-blank _ h = cc

parse_line-ids :
    (raw line : String) (loc : ℕ) (st : ParseState) {st' : ParseState}
    → parse_line raw line loc st ≡ ok st'
    → ids st' ≡ ids st ++ header_of line
unfolding ids partial_new parse_line open_id
parse_line-ids raw line loc st h = elim (Option-cases (strip_prefix "policy " line)) [
  | inr (rest, found) ↦
      let (done, closed, more) =
        >>=-eq-ok (close st.current st.policies) _ (rw (found, parse_line) at h) in
      let (id, named, made) = >>=-eq-ok (ok_or _ (parse_quoted_name rest)) _ more in
      rw (header-open line found (ok_or-eq-ok _ _ named))
        (rw (sym (ok-injective made)) (rw (close-ids st.current st.policies closed)))
  | inl other ↦
      let (p, current, more) = >>=-eq-ok (ok_or _ st.current) _ (rw (other, parse_line) at h) in
      let (p', stepped, made) = >>=-eq-ok (dispatch keywords line _ loc) _ more in
      rw (header-other line other) (
        rw (sym (ok-injective made)) (
          rw (ok_or-eq-ok _ _ current)
            (rw (dispatch-id keywords line _ loc stepped) (sym (append-nil _)))))
]

parse_lines-ids :
    (ls : List String) (n : ℕ) (st : ParseState) {st' : ParseState}
    → parse_lines ls n st ≡ ok st'
    → ids st' ≡ ids st ++ headers ls
unfolding parse_lines
parse_lines-ids [] n st h = rw (sym (ok-injective h)) (sym (append-nil _))
parse_lines-ids (raw ∷ ls) n st h = elim (Bool-cases (is_empty (trim (strip_comment raw)))) [
  | inl blank ↦ rw (header-blank _ blank) (parse_lines-ids ls (n + 1) st (rw blank at h))
  | inr text ↦
      let (st1, read, more) = >>=-eq-ok (parse_line raw _ (n + 1) st) _ (rw text at h) in
      parse_lines-ids ls (n + 1) st1 more
      ∙ (ap (λ l. l ++ headers ls) (parse_line-ids raw _ (n + 1) st read)
          ∙ append_assoc (ids st) (header_of _) (headers ls))
]

-- A successful parse yields one policy for each line that opens one, under the names that those
-- lines give and in their order: none is lost, merged or invented.
pub parse_dsl-headers :
    (input : String) (ps : List DslPolicy)
    → parse_dsl input ≡ ok ps
    → map (λ p. p.id) ps ≡ headers (lines input)
unfolding parse_dsl ids open_id
parse_dsl-headers input ps h =
    let (st, read, closed) = >>=-eq-ok (parse_lines (lines input) 0 _) _ h in
    close-ids st.current st.policies closed ∙ parse_lines-ids (lines input) 0 _ read
