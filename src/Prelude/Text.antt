-- ===== src/Prelude/Text.antt =====
-- The methods of `str` that the program calls, over the native text: its characters in order.
use Prim.Native.Nat.{ℕ, zero, suc, ◌+◌, ◌-◌, ◌/◌, ◌%◌, ◌<◌}
use Prim.Native.Char.{Char, char, code, IsScalar}
use Prim.Native.String.{String, [], ◌∷◌}
use mathlib.Core.Path.{◌≡◌, refl}
use mathlib.Core.Logic.{dite}
use mathlib.Core.Bool.{Bool, true, false, ◌&&◌, ◌||◌}
use mathlib.Core.Option.{Option, none, some}
use mathlib.Core.List.{List, [], ◌∷◌}
use native.Mathlib.Omega.{arith}
use native.Mathlib.Decide.{dec_lt}
use text.Mathlib.Text.{◌==◌ as str_eq}
use paac.Prelude.Tests.{leb, ltb, eqb, if◌then◌else◌}

infixr 66 ◌^^◌
-- Concatenation of texts.
unfoldable pub ◌^^◌ : String → String → String
[] ^^ t = t
(c ∷ s) ^^ t = c ∷ (s ^^ t)

pub ^^-nil : (s : String) → s ^^ [] ≡ s
unfolding ◌^^◌
^^-nil [] = refl
^^-nil (c ∷ s) = rw (^^-nil s)

pub ^^_assoc : (s t u : String) → (s ^^ t) ^^ u ≡ s ^^ (t ^^ u)
unfolding ◌^^◌
^^_assoc [] t u = refl
^^_assoc (c ∷ s) t u = rw (^^_assoc s t u)

abbrev pub is_empty : String → Bool
is_empty [] = true
is_empty (c ∷ s) = false

-- `char::is_whitespace`: the Unicode property White_Space.
unfoldable pub is_whitespace : Char → Bool
is_whitespace c =
    let n = code c in
    (leb 9 n && leb n 13)
    || eqb n 32
    || eqb n 0x85
    || eqb n 0xa0
    || eqb n 0x1680
    || (leb 0x2000 n && leb n 0x200a)
    || eqb n 0x2028
    || eqb n 0x2029
    || eqb n 0x202f
    || eqb n 0x205f
    || eqb n 0x3000

-- `trim_start_matches` and `trim_end_matches` with a test on characters
unfoldable pub trim_start_by : (Char → Bool) → String → String
trim_start_by p [] = []
trim_start_by p (c ∷ s) = if p c then trim_start_by p s else c ∷ s

abbrev pub cons_unless : Bool → Char → String → String
cons_unless true c [] = []
cons_unless _ c s = c ∷ s

unfoldable pub trim_end_by : (Char → Bool) → String → String
trim_end_by p [] = []
trim_end_by p (c ∷ s) = cons_unless (p c) c (trim_end_by p s)

unfoldable pub trim : String → String
unfolding trim_start_by trim_end_by is_whitespace
trim s = trim_end_by is_whitespace (trim_start_by is_whitespace s)

-- `strip_prefix`, the prefix first
unfoldable pub strip_prefix : String → String → Option String
strip_prefix [] s = some s
strip_prefix (c ∷ p) [] = none
strip_prefix (c ∷ p) (d ∷ s) = if eqb (code c) (code d) then strip_prefix p s else none

abbrev pub starts_with : String → String → Bool
starts_with s p = elim (strip_prefix p s) [ none ↦ false | some r ↦ true ]

-- `trim_start_matches` of a text, with the text's characters as fuel: each round takes one at least.
trim_start_from : String → String → String → String
trim_start_from String.[] t s = s
trim_start_from (String.◌∷◌ c fuel) t s = elim (strip_prefix t s) [
  | none ↦ s
  | some r ↦ trim_start_from fuel t r
]

unfoldable pub trim_start_text : String → String → String
unfolding trim_start_from
trim_start_text t s = trim_start_from s t s

-- `strip_suffix` of one character
unfoldable pub strip_suffix_char : ℕ → String → Option String
strip_suffix_char n [] = none
strip_suffix_char n (c ∷ []) = if eqb (code c) n then some [] else none
strip_suffix_char n (c ∷ (d ∷ s)) = elim (strip_suffix_char n (d ∷ s)) [
  | none ↦ none
  | some r ↦ some (c ∷ r)
]

-- `contains` and `ends_with` of a text
unfoldable pub contains : String → String → Bool
contains [] t = is_empty t
contains (c ∷ s) t = starts_with (c ∷ s) t || contains s t

unfoldable pub ends_with : String → String → Bool
ends_with [] t = is_empty t
ends_with (c ∷ s) t =
    elim (strip_prefix (c ∷ s) t) [ none ↦ false | some r ↦ is_empty r ] || ends_with s t

-- `find` of a text that is not empty: what stands before and after its first occurrence.
unfoldable pub split_at : String → String → Option (String × String)
split_at t [] = none
split_at t (c ∷ s) = elim (strip_prefix t (c ∷ s)) [
  | some after ↦ some ([], after)
  | none ↦ elim (split_at t s) [ none ↦ none | some (before, after) ↦ some (c ∷ before, after) ]
]

abbrev pub cons_word : Bool → Char → List String → List String
cons_word true c words = [] ∷ words
cons_word false c [] = (c ∷ []) ∷ []
cons_word false c (w ∷ words) = (c ∷ w) ∷ words

-- `split` by a test on characters: one piece more than there are separators
unfoldable pub split_by : (Char → Bool) → String → List String
split_by p [] = [] ∷ []
split_by p (c ∷ s) = cons_word (p c) c (split_by p s)

abbrev pub is_char : ℕ → Char → Bool
is_char n c = eqb (code c) n

abbrev pub drop_empty : List String → List String
drop_empty [] = []
drop_empty ([] ∷ words) = drop_empty words
drop_empty ((c ∷ w) ∷ words) = (c ∷ w) ∷ drop_empty words

unfoldable pub split_whitespace : String → List String
unfolding split_by is_whitespace
split_whitespace s = drop_empty (split_by is_whitespace s)

-- `split_once` by one character: the part before it, if it is there
unfoldable pub before_char : ℕ → String → Option String
before_char n [] = none
before_char n (c ∷ s) =
    if eqb (code c) n
    then some []
    else elim (before_char n s) [ none ↦ none | some r ↦ some (c ∷ r) ]

abbrev pub or_text : String → Option String → String
or_text s none = s
or_text s (some t) = t

abbrev pub close_lines : List String → List String
close_lines [] = []
close_lines (w ∷ []) = drop_empty (w ∷ [])
close_lines (w ∷ (v ∷ words)) = or_text w (strip_suffix_char 13 w) ∷ close_lines (v ∷ words)

-- `lines`: a last line without its end is kept as it is, an empty one is left out.
unfoldable pub lines : String → List String
unfolding split_by strip_suffix_char
lines s = close_lines (split_by (is_char 10) s)

pub IsScalar-below : (n : ℕ) → n < 128 → IsScalar n
IsScalar-below n h = ground arith

-- the character with an ASCII number
unfoldable pub ascii : ℕ → Char → Char
unfolding dec_lt
ascii n c = dite (dec_lt n 128) (λ h. char n (IsScalar-below n h)) (λ _. c)

unfoldable pub upper_char : Char → Char
unfolding ascii
upper_char c = if leb b'a' (code c) && leb (code c) b'z' then ascii (code c - 32) c else c

unfoldable pub lower_char : Char → Char
unfolding ascii
lower_char c = if leb b'A' (code c) && leb (code c) b'Z' then ascii (code c + 32) c else c

unfoldable pub to_ascii_uppercase : String → String
unfolding upper_char
to_ascii_uppercase [] = []
to_ascii_uppercase (c ∷ s) = upper_char c ∷ to_ascii_uppercase s

unfoldable pub to_ascii_lowercase : String → String
unfolding lower_char
to_ascii_lowercase [] = []
to_ascii_lowercase (c ∷ s) = lower_char c ∷ to_ascii_lowercase s

-- `replace` of one character by a text
unfoldable pub replace_char : ℕ → String → String → String
replace_char n t [] = []
replace_char n t (c ∷ s) =
    if eqb (code c) n then t ^^ replace_char n t s else c ∷ replace_char n t s

unfoldable pub join : String → List String → String
join sep [] = []
join sep (w ∷ []) = w
join sep (w ∷ (v ∷ words)) = w ^^ (sep ^^ join sep (v ∷ words))

-- `to_string` of a number, in decimal; the fuel is above the number of digits
decimal : ℕ → ℕ → String → String
decimal zero n out = out
decimal (suc f) n out =
    let digit : String = ascii (b'0' + n % 10) "0" ∷ out in
    let rest : String = decimal f (n / 10) digit in if ltb n 10 then digit else rest

unfoldable pub show_nat : ℕ → String
unfolding decimal ascii
show_nat n = decimal (suc n) n []

-- `trim_end_matches` of a text: from the right, each time that the rest is the whole pattern. The
-- program's pattern, "_GROUP", does not overlap itself.
unfoldable pub trim_end_text : String → String → String
trim_end_text t [] = []
trim_end_text t (c ∷ s) =
    let r : String = trim_end_text t s in if str_eq (c ∷ r) t then [] else c ∷ r

text_tests :
    (trim "  a b\t" ≡ "a b")
    × (contains "exec_group" "_gr" ≡ true)
    × (ends_with "A_GROUP" "_GROUP" ≡ true)
    × (to_ascii_uppercase "aZ-é" ≡ "AZ-é")
    × (show_nat 407 ≡ "407")
unfolding trim contains ends_with to_ascii_uppercase show_nat strip_prefix
text_tests = (refl, refl, refl, refl, refl)

split_tests :
    (split_by (is_char b',') "a,,b" ≡ "a" ∷ "" ∷ "b" ∷ [])
    × (split_whitespace " a  b " ≡ "a" ∷ "b" ∷ [])
    × (lines "a\r\n\nb\r" ≡ "a" ∷ "" ∷ "b\r" ∷ [])
unfolding split_by split_whitespace lines
split_tests = (refl, refl, refl)
