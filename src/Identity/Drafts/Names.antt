-- ===== src/Identity/Drafts/Names.antt =====
-- Which names can stand in a line: those of groups as crates/authz-identity/src writes them into the
-- drafts.
use Prim.Native.String.{[], ◌∷◌}
use Prim.Native.Char.{char}
use mathlib.Core.Logic.{dite}
use native.Mathlib.Decide.{dec_lt}
use paac.Prelude.{
  ℕ, ◌<◌, ◌-◌, Char, leb, ascii, upper_char, IsScalar-below, String, ◌^^◌, replace_char,
  to_ascii_uppercase, true, false, ◌&&◌, ◌≡◌, refl, eqb, code, Bool-cases, inl, inr, ◌⊎◌, arith,
}
use paac.Identity.Drafts.{underscored}
use paac.Identity.Drafts.Lines.{lacks, lacks-^^}
use paac.Identity.Drafts.Blocks.{IsOneLine}

pub IsOneLine-^^ : (s t : String) → IsOneLine s → IsOneLine t → IsOneLine (s ^^ t)
IsOneLine-^^ s t h k = record {
  no_break = lacks-^^ 10 s t h.no_break k.no_break;
  no_comment = lacks-^^ 35 s t h.no_comment k.no_comment;
}

pub known : (s : String) → lacks 10 s ≡ true → lacks 35 s ≡ true → IsOneLine s
known s h k = record { no_break = h; no_comment = k }

pub between : (s t u : String) → IsOneLine s → IsOneLine t → IsOneLine u → IsOneLine (s ^^ (t ^^ u))
between s t u h k l = IsOneLine-^^ s (t ^^ u) h (IsOneLine-^^ t u k l)

pub lacks-replace_char :
    (n : ℕ) (s : String)
    → lacks n "_" ≡ true
    → lacks n s ≡ true
    → lacks n (replace_char 32 "_" s) ≡ true
unfolding lacks replace_char ◌^^◌
lacks-replace_char n [] u h = refl
lacks-replace_char n (c ∷ s) u h = ground (arith, lacks-replace_char n s u)

pub code-ascii : (m : ℕ) (c : Char) → m < 128 → code (ascii m c) ≡ m
unfolding ascii
code-ascii m c h =
    elim (dec_lt m 128) as (λ d. code (dite d (λ h. char m (IsScalar-below m h)) (λ _. c)) ≡ m) [
      | yes k ↦ refl
      | no k ↦ absurd (k h)
    ]

-- An upper-case letter is no character below or above these letters.
code-upper_char :
    (n : ℕ) (c : Char)
    → (n < 65) ⊎ (90 < n)
    → eqb (code c) n ≡ false
    → eqb (code (upper_char c)) n ≡ false
unfolding upper_char
code-upper_char n c outside other = elim (Bool-cases (leb b'a' (code c) && leb (code c) b'z')) [
  | inl letter ↦ rw letter (rw (code-ascii (code c - 32) c (ground arith)) (ground arith))
  | inr not_letter ↦ rw not_letter other
]

pub lacks-upper :
    (n : ℕ) (s : String)
    → (n < 65) ⊎ (90 < n)
    → lacks n s ≡ true
    → lacks n (to_ascii_uppercase s) ≡ true
unfolding lacks to_ascii_uppercase
lacks-upper n [] u h = refl
lacks-upper n (c ∷ s) u h =
    let other : eqb (code c) n ≡ false = ground arith in
    let rest : lacks n s ≡ true = ground arith in
    rw (code-upper_char n c u other) (lacks-upper n s u rest)

-- The name of a group can stand in a line as the generators write it.
pub upper-IsOneLine : (s : String) → IsOneLine s → IsOneLine (to_ascii_uppercase s)
upper-IsOneLine s h = record {
  no_break = lacks-upper 10 s (inl (omega arith)) h.no_break;
  no_comment = lacks-upper 35 s (inl (omega arith)) h.no_comment;
}

pub underscored-IsOneLine : (s : String) → IsOneLine s → IsOneLine (underscored s)
unfolding underscored lacks
underscored-IsOneLine s h =
    let u = upper-IsOneLine s h in
    record {
      no_break = lacks-replace_char 10 _ refl u.no_break;
      no_comment = lacks-replace_char 35 _ refl u.no_comment;
    }
