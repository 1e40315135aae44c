-- ===== src/Identity/Drafts/Roles.antt =====
-- Which names of groups the parser of crates/authz-policy/src/dsl.rs reads as one role where the
-- generators of crates/authz-identity/src have written them.
use Prim.Native.String.{[], ◌∷◌}
use paac.Prelude.{
  ◌-◌, Char, String, ◌^^◌, Bool, true, false, not, ◌&&◌, ◌≡◌, ◌∙◌, refl, List, map, if◌then◌else◌,
  code, eqb, leb, upper_char, to_ascii_uppercase, replace_char, is_empty, is_char, is_whitespace,
  trim, trim_start_by, trim_end_by, cons_unless, split_by, drop_empty, Bool-cases, inl, inr, arith,
}
use paac.Policy.Dsl.{parse_list}
use paac.Identity.Model.{Group}
use paac.Identity.Drafts.{Style, underscored}
use paac.Identity.Drafts.Lines.{
  lacks, split_by-lacks, trim_end_by-char, trim_start_by-lacks, trim-^^,
}
use paac.Identity.Drafts.Blocks.{IsOneLine, roles_of}
use paac.Identity.Drafts.Texts.{IsNamed}
use paac.Identity.Drafts.Names.{
  code-ascii, lacks-upper, lacks-replace_char, upper-IsOneLine, underscored-IsOneLine,
}

-- A text that is not empty and begins, or ends, with a character that is no white space.
pub starts_clean : String → Bool
starts_clean [] = false
starts_clean (c ∷ s) = not (is_whitespace c)

pub ends_clean : String → Bool
ends_clean [] = false
ends_clean (c ∷ []) = not (is_whitespace c)
ends_clean (c ∷ (d ∷ s)) = ends_clean (d ∷ s)

-- A name that is one role: not empty, on one line, without white space at its ends, a comma or a
-- bracket.
pub record IsRoleName (s : String) : Type 0 where
  pub in_line : IsOneLine s
  pub starts : starts_clean s ≡ true
  pub ends : ends_clean s ≡ true
  pub no_comma : lacks 44 s ≡ true
  pub no_opening : lacks 91 s ≡ true
  pub no_closing : lacks 93 s ≡ true

-- The same as a test, which computes on a name that is known.
unfoldable pub is_role_name : String → Bool
unfolding lacks starts_clean ends_clean
is_role_name s =
    (lacks 10 s && lacks 35 s)
    && ((starts_clean s && ends_clean s) && (lacks 44 s && (lacks 91 s && lacks 93 s)))

pub is_role_name-IsRoleName : (s : String) → is_role_name s ≡ true → IsRoleName s
unfolding is_role_name
is_role_name-IsRoleName s h = record {
  in_line = record { no_break = ground arith; no_comment = ground arith };
  starts = ground arith;
  ends = ground arith;
  no_comma = ground arith;
  no_opening = ground arith;
  no_closing = ground arith;
}

trim_end-clean : (s : String) → ends_clean s ≡ true → trim_end_by is_whitespace s ≡ s
unfolding ends_clean trim_end_by
trim_end-clean [] h = cc
trim_end-clean (c ∷ []) h = let text : is_whitespace c ≡ false = ground arith in rw text refl
trim_end-clean (c ∷ (d ∷ s)) h = rw (trim_end-clean (d ∷ s) h) (kept (is_whitespace c))
  where
    kept : (b : Bool) → cons_unless b c (d ∷ s) ≡ c ∷ (d ∷ s)
    kept true = refl
    kept false = refl

trim-clean : (s : String) → starts_clean s ≡ true → ends_clean s ≡ true → trim s ≡ s
unfolding starts_clean trim trim_start_by
trim-clean [] h k = cc
trim-clean (c ∷ s) h k =
    let text : is_whitespace c ≡ false = ground arith in rw text (trim_end-clean (c ∷ s) k)

not_empty : (s : String) → starts_clean s ≡ true → is_empty s ≡ false
unfolding starts_clean
not_empty [] h = cc
not_empty (c ∷ s) h = refl

whitespace-upper : (c : Char) → is_whitespace (upper_char c) ≡ is_whitespace c
unfolding upper_char is_whitespace
whitespace-upper c = elim (Bool-cases (leb b'a' (code c) && leb (code c) b'z')) [
  | inl letter ↦ rw letter (rw (code-ascii (code c - 32) c (ground arith)) (ground arith))
  | inr not_letter ↦ rw not_letter refl
]

starts-upper : (s : String) → starts_clean (to_ascii_uppercase s) ≡ starts_clean s
unfolding starts_clean to_ascii_uppercase
starts-upper [] = refl
starts-upper (c ∷ s) = rw (whitespace-upper c) refl

ends-upper : (s : String) → ends_clean (to_ascii_uppercase s) ≡ ends_clean s
unfolding ends_clean to_ascii_uppercase
ends-upper [] = refl
ends-upper (c ∷ []) = rw (whitespace-upper c) refl
ends-upper (c ∷ (d ∷ s)) = ends-upper (d ∷ s)

pub upper-IsRoleName : (s : String) → IsRoleName s → IsRoleName (to_ascii_uppercase s)
upper-IsRoleName s h = record {
  in_line = upper-IsOneLine s h.in_line;
  starts = starts-upper s ∙ h.starts;
  ends = ends-upper s ∙ h.ends;
  no_comma = lacks-upper 44 s (inl (omega arith)) h.no_comma;
  no_opening = lacks-upper 91 s (inr (omega arith)) h.no_opening;
  no_closing = lacks-upper 93 s (inr (omega arith)) h.no_closing;
}

starts-replace : (s : String) → starts_clean s ≡ true → starts_clean (replace_char 32 "_" s) ≡ true
unfolding starts_clean replace_char ◌^^◌ is_whitespace
starts-replace [] h = cc
starts-replace (c ∷ s) h = ground arith

ends-cons : (c : Char) (s : String) → ends_clean s ≡ true → ends_clean (c ∷ s) ≡ true
unfolding ends_clean
ends-cons c [] h = cc
ends-cons c (d ∷ s) h = h

-- What a character becomes.
underscore : Char → Char
underscore c = if eqb (code c) 32 then "_" else c

replace-cons :
    (c : Char) (s : String) → replace_char 32 "_" (c ∷ s) ≡ underscore c ∷ replace_char 32 "_" s
unfolding replace_char underscore ◌^^◌
replace-cons c s = elim (Bool-cases (eqb (code c) 32)) [
  | inl space ↦ rw space refl
  | inr other ↦ rw other refl
]

ends-single : (c : Char) → ends_clean (c ∷ []) ≡ true → ends_clean (underscore c ∷ []) ≡ true
unfolding ends_clean underscore is_whitespace
ends-single c h = ground arith

ends-replace : (s : String) → ends_clean s ≡ true → ends_clean (replace_char 32 "_" s) ≡ true
ends-replace [] h = unfold ends_clean in cc
ends-replace (c ∷ []) h = rw (replace-cons c []) (unfold replace_char in ends-single c h)
ends-replace (c ∷ (d ∷ s)) h =
    rw (replace-cons c (d ∷ s))
      (ends-cons (underscore c) _ (ends-replace (d ∷ s) (unfold ends_clean in h)))

pub underscored-IsRoleName : (s : String) → IsRoleName s → IsRoleName (underscored s)
unfolding underscored lacks
underscored-IsRoleName s h =
    let u = upper-IsRoleName s h in
    record {
      in_line = underscored-IsOneLine s h.in_line;
      starts = starts-replace _ u.starts;
      ends = ends-replace _ u.ends;
      no_comma = lacks-replace_char 44 _ refl u.no_comma;
      no_opening = lacks-replace_char 91 _ refl u.no_opening;
      no_closing = lacks-replace_char 93 _ refl u.no_closing;
    }

parse_list-steps :
    (s whole inner bare : String) (pieces : List String)
    → trim s ≡ whole
    → trim_start_by (is_char 91) whole ≡ inner
    → trim_end_by (is_char 93) inner ≡ bare
    → split_by (is_char 44) bare ≡ pieces
    → parse_list s ≡ drop_empty (map trim pieces)
unfolding parse_list
parse_list-steps s whole inner bare pieces a b c d = rw a (rw b (rw c (rw d)))

drop_empty-full :
    (s : String) → is_empty s ≡ false → drop_empty (List.◌∷◌ s List.[]) ≡ List.◌∷◌ s List.[]
drop_empty-full [] h = cc
drop_empty-full (c ∷ s) h = refl

-- The parser reads a name between brackets as one role, where the name is not empty, has no white space
-- at its ends, no comma and no bracket.
roles_of_word :
    (gid : String)
    → is_empty gid ≡ false
    → trim gid ≡ gid
    → lacks 44 gid ≡ true
    → lacks 91 gid ≡ true
    → lacks 93 gid ≡ true
    → roles_of gid ≡ List.◌∷◌ gid List.[]
unfolding ◌^^◌ is_whitespace trim_end_by trim_start_by
roles_of_word gid full clean commas opening closing =
    parse_list-steps _ ("[" ^^ (gid ^^ "]")) (gid ^^ "]") gid (List.◌∷◌ gid List.[])
      (trim-^^ "[" gid "]" refl refl refl) (trim_start_by-lacks 91 gid "]" opening full)
      (trim_end_by-char 93 gid "]" refl closing) (split_by-lacks 44 gid commas)
    ∙ rw clean (drop_empty-full gid full)

pub role-IsNamed : (style : Style) (g : Group) → IsRoleName (style.gid g.name) → IsNamed style g
role-IsNamed style g h =
    let gid = style.gid g.name in
    record {
      in_line = h.in_line;
      one_role =
          roles_of_word gid (not_empty gid h.starts) (trim-clean gid h.starts h.ends) h.no_comma
            h.no_opening h.no_closing;
    }
