-- ===== src/Identity/Drafts/Lines.antt =====
-- Lemmas on the lines of a text: for crates/authz-policy/src/dsl.rs reading what the generators of
-- crates/authz-identity/src write.
use Prim.Native.String.{[], ◌∷◌}
use paac.Prelude.{
  ℕ, Char, code, eqb, String, ◌^^◌, ^^_assoc, Bool, true, false, not, ◌&&◌, ◌≡◌, refl, sym, none,
  some, List, arith, is_empty, is_char, is_whitespace, trim_start_by, trim_end_by, cons_unless,
  trim, strip_suffix_char, split_by, before_char, lines, if◌then◌else◌, Bool-cases, inl, inr,
}
use paac.Policy.Dsl.{strip_comment}

-- The character with a number does not stand in a text.
unfoldable pub lacks : ℕ → String → Bool
lacks n [] = true
lacks n (c ∷ s) = not (eqb (code c) n) && lacks n s

pub lacks-^^ :
    (n : ℕ) (s t : String) → lacks n s ≡ true → lacks n t ≡ true → lacks n (s ^^ t) ≡ true
unfolding lacks ◌^^◌
lacks-^^ n [] t h k = k
lacks-^^ n (c ∷ s) t h k = ground (arith, lacks-^^ n s t)

split_by-line :
    (n : ℕ) (l : String) (c : Char) (s : String)
    → eqb (code c) n ≡ true
    → lacks n l ≡ true
    → split_by (is_char n) (l ^^ (c ∷ s)) ≡ List.◌∷◌ l (split_by (is_char n) s)
unfolding lacks ◌^^◌ split_by
split_by-line n [] c s e h = rw e
split_by-line n (d ∷ l) c s e h =
    let other : eqb (code d) n ≡ false = ground arith in
    let rest : lacks n l ≡ true = ground arith in rw (other) (rw (split_by-line n l c s e rest))

pub split_by-lacks :
    (n : ℕ) (s : String) → lacks n s ≡ true → split_by (is_char n) s ≡ List.◌∷◌ s List.[]
unfolding lacks split_by
split_by-lacks n [] h = refl
split_by-lacks n (d ∷ s) h =
    let other : eqb (code d) n ≡ false = ground arith in
    let rest : lacks n s ≡ true = ground arith in rw (other) (rw (split_by-lacks n s rest))

-- `split` gives one piece at least.
split_by-some :
    (p : Char → Bool) (s : String)
    → (w : String) × (ws : List String) × (split_by p s ≡ List.◌∷◌ w ws)
unfolding split_by
split_by-some p [] = ([], List.[], refl)
split_by-some p (c ∷ s) =
    let (w, ws, e) = split_by-some p s in
    elim (Bool-cases (p c)) [
      | inl sep ↦ ([], split_by p s, rw sep)
      | inr text ↦ (c ∷ w, ws, rw text (rw e))
    ]

-- The last character of a text, if it is a certain one, is taken off.
pub strip_suffix_char-^^ :
    (n : ℕ) (s : String) (c : Char)
    → strip_suffix_char n (s ^^ (c ∷ [])) ≡ (if eqb (code c) n then some s else none)
unfolding ◌^^◌ strip_suffix_char
strip_suffix_char-^^ n [] c = refl
strip_suffix_char-^^ n (d ∷ []) c = ground arith
strip_suffix_char-^^ n (d ∷ (e ∷ s)) c = rw (strip_suffix_char-^^ n (e ∷ s) c) (ground arith)

-- A line and its end in front of other lines.
pub lines-line :
    (l : String) (c : Char) (s : String)
    → eqb (code c) 10 ≡ true
    → lacks 10 l ≡ true
    → strip_suffix_char 13 l ≡ none
    → lines (l ^^ (c ∷ s)) ≡ List.◌∷◌ l (lines s)
unfolding lines
lines-line l c s e h last =
    let (w, ws, pieces) = split_by-some (is_char 10) s in
    rw (split_by-line 10 l c s e h) (rw pieces (rw last))

before_char-lacks : (n : ℕ) (s : String) → lacks n s ≡ true → before_char n s ≡ none
unfolding lacks before_char
before_char-lacks n [] h = refl
before_char-lacks n (c ∷ s) h =
    let other : eqb (code c) n ≡ false = ground arith in
    let rest : lacks n s ≡ true = ground arith in rw (other) (rw (before_char-lacks n s rest))

pub strip_comment-lacks : (s : String) → lacks 35 s ≡ true → strip_comment s ≡ s
unfolding strip_comment
strip_comment-lacks s h = rw (before_char-lacks 35 s h)

cons_unless-text :
    (b : Bool) (c : Char) (s : String) → is_empty s ≡ false → cons_unless b c s ≡ c ∷ s
cons_unless-text true c [] h = cc
cons_unless-text false c [] h = cc
cons_unless-text true c (d ∷ s) h = refl
cons_unless-text false c (d ∷ s) h = refl

pub is_empty-^^ : (s t : String) → is_empty t ≡ false → is_empty (s ^^ t) ≡ false
unfolding ◌^^◌
is_empty-^^ [] t h = h
is_empty-^^ (c ∷ s) t h = refl

-- Nothing is trimmed from the end of a text whose last part is not empty and is not trimmed.
pub trim_end_by-^^ :
    (p : Char → Bool) (s t : String)
    → is_empty t ≡ false
    → trim_end_by p t ≡ t
    → trim_end_by p (s ^^ t) ≡ s ^^ t
unfolding ◌^^◌ trim_end_by
trim_end_by-^^ p [] t h k = k
trim_end_by-^^ p (c ∷ s) t h k =
    rw (trim_end_by-^^ p s t h k) (cons_unless-text (p c) c (s ^^ t) (is_empty-^^ s t h))

-- A character that is trimmed, after a text without it.
pub trim_end_by-char :
    (n : ℕ) (s : String) (c : Char)
    → eqb (code c) n ≡ true
    → lacks n s ≡ true
    → trim_end_by (is_char n) (s ^^ (c ∷ [])) ≡ s
unfolding lacks ◌^^◌ trim_end_by
trim_end_by-char n [] c e h = rw e
trim_end_by-char n (d ∷ s) c e h =
    let other : eqb (code d) n ≡ false = ground arith in
    let rest : lacks n s ≡ true = ground arith in rw (trim_end_by-char n s c e rest) (rw other)

pub trim_start_by-lacks :
    (n : ℕ) (s t : String)
    → lacks n s ≡ true
    → is_empty s ≡ false
    → trim_start_by (is_char n) (s ^^ t) ≡ s ^^ t
unfolding lacks ◌^^◌ trim_start_by
trim_start_by-lacks n [] t h k = cc
trim_start_by-lacks n (c ∷ s) t h k = let other : eqb (code c) n ≡ false = ground arith in rw other

-- Nothing is trimmed from a text that begins with a character which is kept and ends so.
pub trim-^^ :
    (c : Char) (s t : String)
    → is_whitespace c ≡ false
    → is_empty t ≡ false
    → trim_end_by is_whitespace t ≡ t
    → trim (c ∷ (s ^^ t)) ≡ c ∷ (s ^^ t)
unfolding trim ◌^^◌
trim-^^ c s t e h k = rw (e, trim_start_by) (trim_end_by-^^ is_whitespace (c ∷ s) t h k)

-- A line with a part in the middle that is not known.
abbrev pub framed : String → String → Char → String
framed pre mid c = pre ^^ (mid ^^ (c ∷ []))

module _ (pre mid : String) (c : Char) where
  lacks-framed :
      (n : ℕ)
      → lacks n pre ≡ true
      → lacks n mid ≡ true
      → eqb (code c) n ≡ false
      → lacks n (framed pre mid c) ≡ true
  unfolding lacks
  lacks-framed n h k e = lacks-^^ n pre (mid ^^ (c ∷ [])) h (lacks-^^ n mid (c ∷ []) k (rw e))

  pub lines-framed :
      (nl : Char) (s : String)
      → eqb (code nl) 10 ≡ true
      → lacks 10 pre ≡ true
      → lacks 10 mid ≡ true
      → eqb (code c) 10 ≡ false
      → eqb (code c) 13 ≡ false
      → lines (pre ^^ (mid ^^ (c ∷ (nl ∷ s)))) ≡ List.◌∷◌ (framed pre mid c) (lines s)
  lines-framed nl s e h k c_ne c_last =
      let apart : pre ^^ (mid ^^ (c ∷ (nl ∷ s))) ≡ framed pre mid c ^^ (nl ∷ s) =
        rw (^^_assoc pre (mid ^^ (c ∷ [])) (nl ∷ s))
          (rw (^^_assoc mid (c ∷ []) (nl ∷ s)) (unfold ◌^^◌ in refl)) in
      let last : strip_suffix_char 13 (framed pre mid c) ≡ none =
        rw (sym (^^_assoc pre mid (c ∷ [])))
          (rw (strip_suffix_char-^^ 13 (pre ^^ mid) c) (rw c_last)) in
      rw apart (lines-line (framed pre mid c) nl s e (lacks-framed 10 h k c_ne) last)

  -- What the parser reads of such a line is the line.
  pub read-framed :
      (d : Char)
      → is_whitespace d ≡ false
      → is_whitespace c ≡ false
      → lacks 35 (d ∷ pre) ≡ true
      → lacks 35 mid ≡ true
      → eqb (code c) 35 ≡ false
      → trim (strip_comment (d ∷ framed pre mid c)) ≡ d ∷ framed pre mid c
  unfolding lacks trim_end_by
  read-framed d begins ends h k e =
      let first : eqb (code d) 35 ≡ false = ground arith in
      let rest : lacks 35 pre ≡ true = ground arith in
      rw (strip_comment-lacks (d ∷ framed pre mid c) (rw first (lacks-framed 35 rest k e))) (
        rw (sym (^^_assoc pre mid (c ∷ [])))
          (trim-^^ d (pre ^^ mid) (c ∷ []) begins refl (rw ends)))
