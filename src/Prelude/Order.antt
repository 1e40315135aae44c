-- ===== src/Prelude/Order.antt =====
-- The order of `String`, by which vectors of texts are sorted: bytes of UTF-8 are ordered as characters
-- are.
use Prim.Native.Char.{code}
use Prim.Native.String.{String, [], ◌∷◌}
use mathlib.Core.Path.{◌≡◌, refl}
use mathlib.Core.Bool.{Bool, true, false}
use native.Mathlib.Omega.{arith}
use paac.Prelude.Tests.{ltb, eqb, if◌then◌else◌}

-- `a <= b`
unfoldable pub text_le : String → String → Bool
text_le [] t = true
text_le (c ∷ s) [] = false
text_le (c ∷ s) (d ∷ t) =
    let rest = text_le s t in
    if ltb (code c) (code d) then true else if eqb (code c) (code d) then rest else false

pub text_le_total : (s t : String) → text_le s t ≡ false → text_le t s ≡ true
unfolding text_le
text_le_total [] t h = absurd (cc h)
text_le_total (c ∷ s) [] h = refl
text_le_total (c ∷ s) (d ∷ t) h = let rest = text_le_total s t in ground arith

pub text_le_trans : (s t u : String) → text_le s t ≡ true → text_le t u ≡ true → text_le s u ≡ true
unfolding text_le
text_le_trans [] t u h k = refl
text_le_trans (c ∷ s) [] u h k = absurd (cc h)
text_le_trans (c ∷ s) (d ∷ t) [] h k = absurd (cc k)
text_le_trans (c ∷ s) (d ∷ t) (e ∷ u) h k = let rest = text_le_trans s t u in ground arith
