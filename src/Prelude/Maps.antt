-- ===== src/Prelude/Maps.antt =====
-- `IndexMap<String, V>`: pairs in insertion order. Writing a key that is there keeps its place.
-- The program's `HashMap`s are held the same way; nothing it computes may depend on their order.
use Prim.Native.String.{String}
use mathlib.Core.Path.{◌≡◌, refl}
use mathlib.Core.Option.{Option, none, some}
use mathlib.Core.List.{List, [], ◌∷◌, map}
use native.Mathlib.Omega.{arith}
use text.Mathlib.Text.{◌==◌}
use text.Mathlib.TextEquality.{eq_iff}
use paac.Prelude.Tests.{if◌then◌else◌}

abbrev pub IndexMap : Type 0 → Type 0
IndexMap V = List (String × V)

module _ {V : Type 0} where
  -- `get`
  unfoldable pub lookup : String → IndexMap V → Option V
  lookup wanted [] = none
  lookup wanted ((key, value) ∷ more) = if key == wanted then some value else lookup wanted more

  unfoldable pub insert : String → V → IndexMap V → IndexMap V
  insert new value [] = (new, value) ∷ []
  insert new value ((key, old) ∷ more) =
      let after = insert new value more in
      if key == new then (key, value) ∷ more else (key, old) ∷ after

  -- What is found after a write.
  pub lookup-insert :
      (new wanted : String) (value : V) (entries : IndexMap V)
      → lookup wanted (insert new value entries)
        ≡ (if new == wanted then some value else lookup wanted entries)
  unfolding lookup insert
  lookup-insert new wanted value [] = refl
  lookup-insert new wanted value ((key, old) ∷ more) =
      let later = lookup-insert new wanted value more in
      ground (arith, eq_iff key new, eq_iff key wanted, eq_iff new wanted)

  -- `for (k, v) in from { to.insert(k, v) }`
  unfoldable pub insert_all : IndexMap V → IndexMap V → IndexMap V
  insert_all [] m = m
  insert_all ((k, v) ∷ from) m = insert_all from (insert k v m)

  -- `retain` and `remove` on the key
  unfoldable pub remove : String → IndexMap V → IndexMap V
  remove k [] = []
  remove k ((j, v) ∷ m) = let rest = remove k m in if j == k then rest else (j, v) ∷ rest

  pub lookup-remove :
      (k j : String) (m : IndexMap V)
      → lookup j (remove k m) ≡ (if k == j then none else lookup j m)
  unfolding lookup remove
  lookup-remove k j [] = ground arith
  lookup-remove k j ((i, v) ∷ m) =
      ground (arith, lookup-remove k j m, eq_iff i k, eq_iff i j, eq_iff k j)

abbrev pub keys : {V : Type 0} → IndexMap V → List String
keys m = map (λ e. e.0) m
