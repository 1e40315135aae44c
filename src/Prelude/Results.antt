-- ===== src/Prelude/Results.antt =====
-- `Result<A, E>` of the program. `panic` is the third way a call can end: the thread unwinds.
use mathlib.Core.Path.{◌≡◌, refl}
use mathlib.Core.Bool.{Bool, true, false}
use mathlib.Core.Option.{Option, none, some}

pub data Result (E A : Type 0) : Type 0 where
  ok : A → Result E A
  err : E → Result E A
  panic : Result E A

module _ {E A B : Type 0} where
  infixl 5 ◌>>=◌
  abbrev pub ◌>>=◌ : Result E A → (A → Result E B) → Result E B
  ok a >>= f = f a
  err e >>= f = err e
  panic >>= f = panic

  -- The parts of a successful chain.
  pub >>=-eq-ok :
      (first : Result E A) (next : A → Result E B) {result : B}
      → (first >>= next) ≡ ok result
      → (value : A) × (first ≡ ok value) × (next value ≡ ok result)
  >>=-eq-ok (ok value) next made = (value, refl, made)
  >>=-eq-ok (err failure) next made = cc
  >>=-eq-ok panic next made = cc

infixl 5 ◌>>◌
abbrev pub ◌>>◌ : {E B : Type 0} → Result E (Unit {0}) → Result E B → Result E B
first >> after = first >>= λ _. after

module _ {E F A : Type 0} where
  abbrev pub map_err : (E → F) → Result E A → Result F A
  map_err f (ok a) = ok a
  map_err f (err e) = err (f e)
  map_err f panic = panic

  pub map_err-eq-ok : (f : E → F) (r : Result E A) {a : A} → map_err f r ≡ ok a → r ≡ ok a
  map_err-eq-ok f (ok a) h = cc
  map_err-eq-ok f (err e) h = cc
  map_err-eq-ok f panic h = cc

module _ {E A : Type 0} where
  -- `ok_or_else`
  abbrev pub ok_or : E → Option A → Result E A
  ok_or e none = err e
  ok_or e (some a) = ok a

  -- an early `return Err(e)` under a test
  abbrev pub reject_if : Bool → E → Result E A → Result E A
  reject_if true e r = err e
  reject_if false e r = r

  pub ok_or-eq-ok : (e : E) (o : Option A) {a : A} → ok_or e o ≡ ok a → o ≡ some a
  ok_or-eq-ok e none h = cc
  ok_or-eq-ok e (some a) h = cc

  pub reject_if-eq-ok :
      (b : Bool) (e : E) (r : Result E A) {a : A}
      → reject_if b e r ≡ ok a
      → (b ≡ false) × (r ≡ ok a)
  reject_if-eq-ok true e r h = cc
  reject_if-eq-ok false e r h = (refl, h)

-- `unwrap_or_default`, `unwrap_or`
abbrev pub or_else : {A : Type 0} → Option A → A → A
or_else none d = d
or_else (some a) d = a

abbrev pub is_none : {A : Type 0} → Option A → Bool
is_none none = true
is_none (some a) = false

module _ {E A : Type 0} {a b : A} where
  pub ok-injective : ◌≡◌ {A = Result E A} (ok a) (ok b) → a ≡ b
  ok-injective h = cc

module _ {A : Type 0} {a b : A} where
  pub some-injective : ◌≡◌ {A = Option A} (some a) (some b) → a ≡ b
  some-injective h = cc
