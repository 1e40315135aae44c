-- ===== src/Prelude/Trim.antt =====
-- Trimming: what is left begins and ends with a character that is kept, or is empty.
use Prim.Native.Char.{Char}
use Prim.Native.String.{String, [], ◌∷◌}
use mathlib.Core.Path.{◌≡◌, refl, ◌∙◌, ap}
use mathlib.Core.Logic.{◌↔◌, inl, inr}
use mathlib.Core.Bool.{Bool, true, false}
use paac.Prelude.Tests.{Bool-cases}
use paac.Prelude.Text.{is_empty, is_whitespace, trim_start_by, cons_unless, trim_end_by, trim}

module _ (p : Char → Bool) where
  -- Every character passes the test.
  abbrev pub AllChars : String → Type 0
  AllChars [] = Unit
  AllChars (c ∷ s) = (p c ≡ true) × AllChars s

  abbrev pub HasCleanHead : String → Type 0
  HasCleanHead [] = Unit
  HasCleanHead (c ∷ s) = p c ≡ false

  trim_start-HasCleanHead : (s : String) → HasCleanHead (trim_start_by p s)
  unfolding trim_start_by
  trim_start-HasCleanHead [] = tt
  trim_start-HasCleanHead (c ∷ s) = elim (Bool-cases (p c)) [
    | inl drop ↦ rw drop (trim_start-HasCleanHead s)
    | inr stay ↦ rw stay stay
  ]

  trim_start_of_HasCleanHead : (s : String) → HasCleanHead s → trim_start_by p s ≡ s
  unfolding trim_start_by
  trim_start_of_HasCleanHead [] h = refl
  trim_start_of_HasCleanHead (c ∷ s) h = rw h

  trim_end-HasCleanHead : (s : String) → HasCleanHead s → HasCleanHead (trim_end_by p s)
  unfolding trim_end_by
  trim_end-HasCleanHead [] h = tt
  trim_end-HasCleanHead (c ∷ s) h = rw h h

  trim_end_cons :
      (c : Char) (s : String)
      → trim_end_by p s ≡ s
      → trim_end_by p (cons_unless (p c) c s) ≡ cons_unless (p c) c s
  unfolding trim_end_by
  trim_end_cons c [] h = elim (Bool-cases (p c)) [
    | inl drop ↦ rw drop
    | inr stay ↦ rw stay (rw stay)
  ]
  trim_end_cons c (d ∷ s) h = elim (Bool-cases (p c)) [
    | inl drop ↦ rw drop (rw (drop, h))
    | inr stay ↦ rw stay (rw (stay, h))
  ]

  trim_end_idem : (s : String) → trim_end_by p (trim_end_by p s) ≡ trim_end_by p s
  unfolding trim_end_by
  trim_end_idem [] = refl
  trim_end_idem (c ∷ s) = trim_end_cons c (trim_end_by p s) (trim_end_idem s)

  trim_end-nil : (s : String) → AllChars s → trim_end_by p s ≡ []
  unfolding trim_end_by
  trim_end-nil [] h = refl
  trim_end-nil (c ∷ s) (h, hs) = rw (h, trim_end-nil s hs)

  trim_start-nil : (s : String) → AllChars s → trim_start_by p s ≡ []
  unfolding trim_start_by
  trim_start-nil [] h = refl
  trim_start-nil (c ∷ s) (h, hs) = rw h (trim_start-nil s hs)

  trim-AllChars : (s : String) → is_empty (trim_end_by p (trim_start_by p s)) ≡ true → AllChars s
  unfolding trim_start_by trim_end_by
  trim-AllChars [] h = tt
  trim-AllChars (c ∷ s) h = elim (Bool-cases (p c)) [
    | inl drop ↦ (drop, trim-AllChars s (rw drop at h))
    | inr stay ↦ absurd (stays (trim_end_by p s) (rw stay at (rw stay at h)))
  ]
    where
      stays : (r : String) → is_empty (cons_unless false c r) ≡ true → ⊥
      stays r e = cc

pub trim_idem : (s : String) → trim (trim s) ≡ trim s
unfolding trim
trim_idem s =
    let t = trim_start_by is_whitespace s in
    ap (trim_end_by is_whitespace) (
      trim_start_of_HasCleanHead is_whitespace (trim_end_by is_whitespace t)
        (trim_end-HasCleanHead is_whitespace t (trim_start-HasCleanHead is_whitespace s)))
    ∙ trim_end_idem is_whitespace t

-- A text is blank exactly when it holds nothing but white space.
pub is_empty-trim_iff : (s : String) → (is_empty (trim s) ≡ true) ↔ AllChars is_whitespace s
unfolding trim
is_empty-trim_iff s = (
  trim-AllChars is_whitespace s,
  λ h. rw (trim_start-nil is_whitespace s h) (unfold trim_end_by in refl),
)
