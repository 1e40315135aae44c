-- ===== src/Identity/Saml/Splits.antt =====
-- What `find` gives of a text, as crates/authz-identity/src/idp.rs takes assertions apart: the first
-- occurrence, and what stands before and after it.
use Prim.Native.String.{[], ◌∷◌}
use Prim.Native.Char.{Char, code}
use text.Mathlib.TextEquality.{Char-path}
use paac.Prelude.{
  String, ◌^^◌, Option, none, some, eqb, strip_prefix, split_at, ◌≡◌, refl, sym, ap, ◌∙◌, subst,
  some-injective, inl, inr, Bool-cases, arith,
}

strip_prefix-some : (t s : String) {r : String} → strip_prefix t s ≡ some r → s ≡ t ^^ r
unfolding strip_prefix ◌^^◌
strip_prefix-some [] s h = some-injective h
strip_prefix-some (c ∷ t) [] h = absurd (cc h)
strip_prefix-some (c ∷ t) (d ∷ s) h = elim (Bool-cases (eqb (code c) (code d))) [
  | inl same ↦
      let here : c ≡ d = Char-path c d (ground arith) in
      let there = strip_prefix-some t s (rw same at h) in cc
  | inr other ↦
      let never : ◌≡◌ {A = Option String} none (some _) = rw other at h in absurd (cc never)
]

strip_prefix-none : (t s u : String) → strip_prefix t (s ^^ u) ≡ none → strip_prefix t s ≡ none
unfolding strip_prefix ◌^^◌
strip_prefix-none [] s u h = absurd (cc h)
strip_prefix-none (c ∷ t) [] u h = refl
strip_prefix-none (c ∷ t) (d ∷ s) u h = elim (Bool-cases (eqb (code c) (code d))) [
  | inl same ↦ rw same (strip_prefix-none t s u (rw same at h))
  | inr other ↦ rw other
]

-- What `split_at` makes of the first character's prefix and of the rest.
abbrev joined : Char → Option String → Option (String × String) → Option (String × String)
joined c (some after) rest = some ([], after)
joined c none none = none
joined c none (some (before, after)) = some (c ∷ before, after)

joined_lem :
    (c : Char) (o : Option String) (rest : Option (String × String))
    → elim o [
      | some after ↦ some ([], after)
      | none ↦ elim rest [ none ↦ none | some (before, after) ↦ some (c ∷ before, after) ]
    ]
      ≡ joined c o rest
joined_lem c (some after) rest = refl
joined_lem c none none = refl
joined_lem c none (some found) = refl

split_at-cons :
    (t : String) (c : Char) (s : String)
    → split_at t (c ∷ s) ≡ joined c (strip_prefix t (c ∷ s)) (split_at t s)
unfolding split_at
split_at-cons t c s = joined_lem c (strip_prefix t (c ∷ s)) (split_at t s)

-- `b` and `r` are what stands before and after the first occurrence.
abbrev pub IsSplit : String → String → String × String → Type 0
IsSplit t s (b, r) = (s ≡ b ^^ (t ^^ r)) × (split_at t b ≡ none)

joined-IsSplit :
    (t : String) (c : Char) (s : String) (o : Option String) (rest : Option (String × String))
    (parts : String × String)
    → strip_prefix t (c ∷ s) ≡ o
    → ((found : String × String) → rest ≡ some found → IsSplit t s found)
    → joined c o rest ≡ some parts
    → IsSplit t (c ∷ s) parts
unfolding split_at ◌^^◌
joined-IsSplit t c s (some after) rest parts prefix later h =
    subst (IsSplit t (c ∷ s)) (some-injective h) (strip_prefix-some t (c ∷ s) prefix, refl)
joined-IsSplit t c s none none parts prefix later h = absurd (cc h)
joined-IsSplit t c s none (some (b, r)) parts prefix later h =
    let (whole, first) = later (b, r) refl in
    let whole' : c ∷ s ≡ (c ∷ b) ^^ (t ^^ r) = ap (λ x. c ∷ x) whole in
    let fresh : strip_prefix t (c ∷ b) ≡ none =
      strip_prefix-none t (c ∷ b) (t ^^ r) (subst (λ x. strip_prefix t x ≡ none) whole' prefix) in
    subst (IsSplit t (c ∷ s)) (some-injective h) (
      whole',
      split_at-cons t c b
          ∙ (ap (λ o. joined c o (split_at t b)) fresh ∙ ap (λ x. joined c none x) first),
    )

-- The first occurrence: the text is what stands before it, it, and what stands after it, and it does
-- not occur before.
pub split_at-IsSplit :
    (t s : String) (parts : String × String) → split_at t s ≡ some parts → IsSplit t s parts
unfolding split_at
split_at-IsSplit t [] parts h = absurd (cc h)
split_at-IsSplit t (c ∷ s) parts h =
    joined-IsSplit t c s (strip_prefix t (c ∷ s)) (split_at t s) parts refl (split_at-IsSplit t s)
      (sym (split_at-cons t c s) ∙ h)
