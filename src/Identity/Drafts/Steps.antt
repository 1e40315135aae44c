-- ===== src/Identity/Drafts/Steps.antt =====
-- The parser of crates/authz-policy/src/dsl.rs at the lines of a drafted block: what each line makes of
-- the open policy.
use paac.Prelude.{
  ℕ, ◌+◌, String, ◌^^◌, ^^_assoc, Bool, true, false, ◌≡◌, refl, sym, ap, ◌∙◌, Option, none, some,
  List, [], ◌∷◌, ◌++◌, ok, ◌>>=◌, arith, is_empty, is_whitespace, trim_end_by, trim, split_by,
  is_char, lines, strip_prefix, strip_suffix_char, contains, if◌then◌else◌, Bool-cases, inl, inr,
}
use paac.Policy.Dsl.{
  DslPolicy, allow, deny, Partial, partial_new, strip_comment, parse_quoted_name, parse_list,
  parse_roles, parse_when, parse_unless, parse_where, parse_action_resource, add_subject_in,
  run_statement, dispatch, close, ParseState, parse_line, parse_lines,
}
use paac.Identity.Drafts.Lines.{lacks, read-framed, strip_suffix_char-^^, trim-^^}
use paac.Identity.Drafts.Blocks.{IsOneLine, roles_of, header_line, role_line, allow_line}

-- Reading some lines takes the parser from a state to another one, whatever follows them and
-- wherever they stand.
abbrev pub Runs : List String → ParseState → ParseState → Type 0
Runs ls st st' =
    (more : List String) (n : ℕ)
    → (m : ℕ) × (parse_lines (ls ++ more) n st ≡ parse_lines more m st')

pub Runs-text :
    (raw : String) (ls : List String) (st st1 st2 : ParseState) {line : String}
    → trim (strip_comment raw) ≡ line
    → is_empty line ≡ false
    → ((n : ℕ) → parse_line raw line n st ≡ ok st1)
    → Runs ls st1 st2
    → Runs (raw ∷ ls) st st2
unfolding parse_lines
Runs-text raw ls st st1 st2 read text step rest more n =
    let (m, e) = rest more (n + 1) in (m, rw read (rw text (rw (step (n + 1)) e)))

-- The same for a line that is read as it stands.
pub Runs-known :
    (line : String) (ls : List String) (st st1 st2 : ParseState)
    → trim (strip_comment line) ≡ line
    → is_empty line ≡ false
    → ((n : ℕ) → parse_line line line n st ≡ ok st1)
    → Runs ls st1 st2
    → Runs (line ∷ ls) st st2
Runs-known line ls st st1 st2 read text step rest = Runs-text line ls st st1 st2 read text step rest

pub Runs-blank :
    (raw : String) (st : ParseState)
    → is_empty (trim (strip_comment raw)) ≡ true
    → Runs (raw ∷ []) st st
unfolding parse_lines
Runs-blank raw st blank more n = (n + 1, rw blank)

quoted-name : (name : String) → parse_quoted_name ("\"" ^^ (name ^^ "\"")) ≡ some name
unfolding parse_quoted_name strip_prefix ◌^^◌ is_whitespace trim_end_by
quoted-name name =
    let clean : trim ("\"" ^^ (name ^^ "\"")) ≡ "\"" ^^ (name ^^ "\"") =
      trim-^^ "\"" name "\"" refl refl refl in
    rw (clean, parse_quoted_name) (rw (strip_suffix_char-^^ 34 name "\""))

-- A state in which the policies so far, with the open one, are known.
abbrev pub IsReady : ParseState → List DslPolicy → Type 0
IsReady st ps = close st.current st.policies ≡ ok ps

abbrev pub opened : List DslPolicy → Partial → ParseState
opened ps p = record { policies = ps; current = some p }

pub header-step :
    (name : String) (st : ParseState) {ps : List DslPolicy}
    → IsReady st ps
    → (n : ℕ)
    → parse_line (header_line name) (header_line name) n st
      ≡ ok (opened ps (partial_new name (header_line name)))
unfolding parse_line strip_prefix ◌^^◌
header-step name st ready n = rw ready (rw (quoted-name name))

pub read-header :
    (name : String) → IsOneLine name → trim (strip_comment (header_line name)) ≡ header_line name
unfolding ◌^^◌ lacks is_whitespace
read-header name named = read-framed "olicy \"" name "\"" "p" refl refl refl named.no_comment refl

pub read-role :
    (gid : String) → IsOneLine gid → trim (strip_comment (role_line gid)) ≡ role_line gid
unfolding ◌^^◌ lacks is_whitespace
read-role gid h = read-framed "hen role in [" gid "]" "w" refl refl refl h.no_comment refl

unfoldable pub with_role : String → String → Partial
with_role name gid = record (partial_new name (header_line name ^^ ("\n" ^^ role_line gid))) {
  when_roles = roles_of gid;
}

parse_when-roles :
    (text rest : String) (roles : List String) (p : Partial) (n : ℕ)
    → trim text ≡ rest
    → parse_roles rest ≡ some roles
    → parse_when text p n ≡ ok (record p { when_roles = p.when_roles ++ roles })
unfolding parse_when
parse_when-roles text rest roles p n clean found = ground arith

parse_when-role :
    (gid : String) (p : Partial) (n : ℕ)
    → parse_when ("role in [" ^^ (gid ^^ "]")) p n
      ≡ ok (record p { when_roles = p.when_roles ++ roles_of gid })
unfolding parse_roles strip_prefix ◌^^◌ is_whitespace trim_end_by
parse_when-role gid p n =
    parse_when-roles _ ("role in [" ^^ (gid ^^ "]")) (roles_of gid) p n
      (trim-^^ "r" ("ole in [" ^^ gid) "]" refl refl refl) refl

pub role-step :
    (name gid : String) (ps : List DslPolicy) (n : ℕ)
    → parse_line (role_line gid) (role_line gid) n (opened ps (partial_new name (header_line name)))
      ≡ ok (opened ps (with_role name gid))
unfolding parse_line strip_prefix ◌^^◌ dispatch run_statement with_role partial_new
role-step name gid ps n = rw (parse_when-role gid _ n)

unfoldable pub add_raw : String → Partial → Partial
add_raw line p = record p { raw = p.raw ^^ ("\n" ^^ line) }

unfoldable pub allowed : Partial → Partial
allowed p = record (add_raw allow_line p) {
  effect = some allow;
  action = some "READ";
  resource = some "EMPLOYEE_PROFILE";
}

unfoldable pub denied : String → String → String → Partial → Partial
denied line action resource p = record (add_raw line p) {
  effect = some deny;
  action = some action;
  resource = some resource;
}

unfoldable pub of_self : Partial → Partial
of_self p = record (add_raw "where subject == SELF" p) {
  where_subjects = p.where_subjects ++ "SELF" ∷ [];
}

unfoldable pub of_executives : Partial → Partial
of_executives p = record (add_raw "where subject in EXECUTIVE_GROUP" p) {
  where_subject_groups = p.where_subject_groups ++ "EXECUTIVE" ∷ [];
}

unfoldable pub excepting : String → List String → Partial → Partial
excepting line roles p = record (add_raw line p) { unless_roles = p.unless_roles ++ roles }

pub allow-step :
    (ps : List DslPolicy) (p : Partial) (n : ℕ)
    → parse_line allow_line allow_line n (opened ps p) ≡ ok (opened ps (allowed p))
unfolding parse_line allowed dispatch strip_prefix run_statement parse_action_resource
    paac.Prelude.split_whitespace add_raw paac.Prelude.to_ascii_uppercase ◌^^◌
allow-step ps p n = refl

pub self-step :
    (ps : List DslPolicy) (p : Partial) (n : ℕ)
    → parse_line "where subject == SELF" "where subject == SELF" n (opened ps p)
      ≡ ok (opened ps (of_self p))
unfolding parse_line of_self dispatch strip_prefix run_statement parse_where trim add_raw ◌^^◌
self-step ps p n = refl

pub read-allow : trim (strip_comment allow_line) ≡ allow_line
unfolding trim strip_comment paac.Prelude.before_char
read-allow = refl

pub read_self : trim (strip_comment "where subject == SELF") ≡ "where subject == SELF"
unfolding trim strip_comment paac.Prelude.before_char
read_self = refl

pub deny_read-step :
    (ps : List DslPolicy) (p : Partial) (n : ℕ)
    → parse_line "deny READ TRAVEL_EXPENSE" "deny READ TRAVEL_EXPENSE" n (opened ps p)
      ≡ ok (opened ps (denied "deny READ TRAVEL_EXPENSE" "READ" "TRAVEL_EXPENSE" p))
unfolding parse_line denied dispatch strip_prefix run_statement parse_action_resource
    paac.Prelude.split_whitespace add_raw paac.Prelude.to_ascii_uppercase ◌^^◌
deny_read-step ps p n = refl

pub executives-step :
    (ps : List DslPolicy) (p : Partial) (n : ℕ)
    → parse_line "where subject in EXECUTIVE_GROUP" "where subject in EXECUTIVE_GROUP" n
        (opened ps p)
      ≡ ok (opened ps (of_executives p))
unfolding parse_line of_executives dispatch strip_prefix run_statement parse_where trim
    add_subject_in paac.Prelude.ends_with add_raw paac.Prelude.trim_end_text ◌^^◌
executives-step ps p n = refl

pub officers-step :
    (ps : List DslPolicy) (p : Partial) (n : ℕ)
    → parse_line "unless role in [CFO, CEO]" "unless role in [CFO, CEO]" n (opened ps p)
      ≡ ok (opened ps (excepting "unless role in [CFO, CEO]" ("CFO" ∷ ("CEO" ∷ [])) p))
unfolding parse_line excepting dispatch strip_prefix run_statement parse_unless parse_roles trim
    add_raw parse_list ◌^^◌ split_by
officers-step ps p n = refl

pub deny_export-step :
    (ps : List DslPolicy) (p : Partial) (n : ℕ)
    → parse_line "deny EXPORT SALARY" "deny EXPORT SALARY" n (opened ps p)
      ≡ ok (opened ps (denied "deny EXPORT SALARY" "EXPORT" "SALARY" p))
unfolding parse_line denied dispatch strip_prefix run_statement parse_action_resource
    paac.Prelude.split_whitespace add_raw paac.Prelude.to_ascii_uppercase ◌^^◌
deny_export-step ps p n = refl

pub admin-step :
    (ps : List DslPolicy) (p : Partial) (n : ℕ)
    → parse_line "unless role == PAYROLL_ADMIN" "unless role == PAYROLL_ADMIN" n (opened ps p)
      ≡ ok (opened ps (excepting "unless role == PAYROLL_ADMIN" ("PAYROLL_ADMIN" ∷ []) p))
unfolding parse_line excepting dispatch strip_prefix run_statement parse_unless parse_roles trim
    add_raw ◌^^◌
admin-step ps p n = refl

pub reads :
    (trim (strip_comment "deny READ TRAVEL_EXPENSE") ≡ "deny READ TRAVEL_EXPENSE")
    × (trim (strip_comment "where subject in EXECUTIVE_GROUP") ≡ "where subject in EXECUTIVE_GROUP")
    × (trim (strip_comment "unless role in [CFO, CEO]") ≡ "unless role in [CFO, CEO]")
    × (trim (strip_comment "deny EXPORT SALARY") ≡ "deny EXPORT SALARY")
    × (trim (strip_comment "unless role == PAYROLL_ADMIN") ≡ "unless role == PAYROLL_ADMIN")
unfolding trim strip_comment paac.Prelude.before_char
reads = (refl, refl, refl, refl, refl)

pub blank : is_empty (trim (strip_comment "")) ≡ true
unfolding trim strip_comment paac.Prelude.before_char
blank = refl

pub Runs-header :
    (name : String) (ls : List String) (st st' : ParseState) (ps : List DslPolicy)
    → IsOneLine name
    → IsReady st ps
    → Runs ls (opened ps (partial_new name (header_line name))) st'
    → Runs (header_line name ∷ ls) st st'
unfolding ◌^^◌
Runs-header name ls st st' ps named ready rest =
    Runs-text (header_line name) ls st (opened ps (partial_new name (header_line name))) st'
      {line = header_line name} (read-header name named) refl (header-step name st ready) rest

pub Runs-role :
    (name gid : String) (ls : List String) (st' : ParseState) (ps : List DslPolicy)
    → IsOneLine gid
    → Runs ls (opened ps (with_role name gid)) st'
    → Runs (role_line gid ∷ ls) (opened ps (partial_new name (header_line name))) st'
unfolding ◌^^◌
Runs-role name gid ls st' ps h rest =
    Runs-text (role_line gid) ls (opened ps (partial_new name (header_line name)))
      (opened ps (with_role name gid)) st' {line = role_line gid} (read-role gid h) refl
      (role-step name gid ps) rest
