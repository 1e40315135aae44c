-- ===== src/Core/Evaluate/Literals.antt =====
-- The string literals of the context, read back: what `escape` of crates/authz-core/src/evaluate.rs
-- must write for a JSON reader. `\u` escapes, which it never writes, are left out of the reader.
use Prim.Native.Char.{Char, code}
use Prim.Native.String.{String, [], ◌∷◌}
use text.Mathlib.TextEquality.{Char-path}
use paac.Prelude.{
  Bool, true, false, ◌&&◌, ◌||◌, not, ◌≡◌, refl, Option, none, some, ◌^^◌, eqb, ltb, arith,
  Bool-cases, inl, inr, if◌then◌else◌,
}
use paac.Core.Evaluate.Context.{escape}

-- The character that a backslash and the given one stand for.
unfoldable pub unescape : Char → Option Char
unescape c =
    let n = code c in
    if eqb n 34 || eqb n 92 || eqb n b'/'
    then some c
    else if eqb n b'n'
    then some "\n"
    else if eqb n b't'
    then some "\t"
    else if eqb n b'r'
    then some "\r"
    else if eqb n b'b'
    then some "\u{8}"
    else if eqb n b'f'
    then some "\u{c}"
    else none

abbrev pub cons_read : Option Char → Option (String × String) → Option (String × String)
cons_read none r = none
cons_read (some c) none = none
cons_read (some c) (some (s, rest)) = some (c ∷ s, rest)

-- The rest of a JSON string after its opening quote: its value, and the text after its closing
-- quote. A raw control character is refused.
pub read_string : String → Option (String × String)
read_string [] = none
read_string (c ∷ []) = if eqb (code c) 34 then some ([], []) else none
read_string (c ∷ (d ∷ s)) =
    let next = read_string (d ∷ s) in
    let after = read_string s in
    if eqb (code c) 34
    then some ([], d ∷ s)
    else if eqb (code c) 92
    then cons_read (unescape d) after
    else if ltb (code c) 32
    then none
    else cons_read (some c) next

-- No character is a control character.
abbrev pub is_printable : String → Bool
is_printable [] = true
is_printable (c ∷ s) = not (ltb (code c) 32) && is_printable s

read_string-plain :
    (c : Char) (t : String)
    → eqb (code c) 34 ≡ false
    → eqb (code c) 92 ≡ false
    → read_string (c ∷ t) ≡ (if ltb (code c) 32 then none else cons_read (some c) (read_string t))
unfolding read_string
read_string-plain c [] q b = rw q (ground arith)
read_string-plain c (d ∷ t) q b = rw q (rw b)

escape-plain :
    (c : Char) (s : String)
    → eqb (code c) 34 ≡ false
    → eqb (code c) 92 ≡ false
    → escape (c ∷ s) ≡ c ∷ escape s
unfolding escape
escape-plain c s q b = rw b (rw q)

escape-special :
    (c : Char) (s : String)
    → (eqb (code c) 34 || eqb (code c) 92) ≡ true
    → escape (c ∷ s) ≡ "\\" ∷ (c ∷ escape s)
unfolding escape ◌^^◌
escape-special c s h = elim (Bool-cases (eqb (code c) 92)) [
  | inl b ↦ let same : c ≡ "\\" = Char-path c "\\" (ground arith) in rw same
  | inr b ↦ let same : c ≡ "\"" = Char-path c "\"" (ground arith) in rw same
]

read_string-special :
    (c : Char) (t : String)
    → (eqb (code c) 34 || eqb (code c) 92) ≡ true
    → read_string ("\\" ∷ (c ∷ t)) ≡ cons_read (some c) (read_string t)
unfolding read_string unescape
read_string-special c t h = let same : unescape c ≡ some c = ground arith in rw same

read_string-quote : (rest : String) → read_string ("\"" ∷ rest) ≡ some ([], rest)
unfolding read_string
read_string-quote [] = refl
read_string-quote (d ∷ rest) = refl

or-false : (a b : Bool) → (a || b) ≡ false → (a ≡ false) × (b ≡ false)
or-false a b h = ground arith

special-printable :
    (c : Char) → (eqb (code c) 34 || eqb (code c) 92) ≡ true → ltb (code c) 32 ≡ false
special-printable c h = ground arith

-- What the reader and the test make of a text also holds with one more character before it.
read_step :
    (c : Char) (s rest t : String)
    → read_string t ≡ (if is_printable s then some (s, rest) else none)
    → (if ltb (code c) 32 then none else cons_read (some c) (read_string t))
      ≡ (if is_printable (c ∷ s) then some (c ∷ s, rest) else none)
read_step c s rest t ih = ground arith

read_step_small :
    (c : Char) (s rest t : String)
    → ltb (code c) 32 ≡ false
    → read_string t ≡ (if is_printable s then some (s, rest) else none)
    → cons_read (some c) (read_string t)
      ≡ (if is_printable (c ∷ s) then some (c ∷ s, rest) else none)
read_step_small c s rest t small ih = ground arith

-- An escaped text, closed by a quote, reads back as itself and leaves the rest alone exactly when it
-- holds no control character; otherwise the reader refuses it.
pub read_string-escape :
    (s rest : String)
    → read_string (escape s ^^ ("\"" ^^ rest)) ≡ (if is_printable s then some (s, rest) else none)
unfolding ◌^^◌
read_string-escape [] rest = unfold escape in read_string-quote rest
read_string-escape (c ∷ s) rest = elim (Bool-cases (eqb (code c) 34 || eqb (code c) 92)) [
  | inl special ↦ rw (escape-special c s special) (
      rw (read_string-special c (escape s ^^ ("\"" ∷ rest)) special) (
        read_step_small c s rest (escape s ^^ ("\"" ∷ rest)) (special-printable c special)
          (read_string-escape s rest)))
  | inr plain ↦
      let (q, b) = or-false _ _ plain in
      rw (escape-plain c s q b) (
        rw (read_string-plain c (escape s ^^ ("\"" ∷ rest)) q b)
          (read_step c s rest (escape s ^^ ("\"" ∷ rest)) (read_string-escape s rest)))
]
