-- ===== src/Policy/Store/Drafts.antt =====
-- crates/authz-policy/src/store.rs: list_drafts.
use paac.Prelude.{String, true, List, [], ◌∷◌, keys, All, ◌≡◌, if◌then◌else◌}
use paac.Prelude.Order.{text_le}
use paac.Policy.Store.{Disk}

unfoldable insert_sorted : String → List String → List String
insert_sorted x [] = x ∷ []
insert_sorted x (y ∷ ys) =
    let rest = insert_sorted x ys in if text_le x y then x ∷ (y ∷ ys) else y ∷ rest

unfoldable sort : List String → List String
unfolding insert_sorted
sort [] = []
sort (x ∷ xs) = insert_sorted x (sort xs)

-- The stems of the files below drafts, which are the names of the drafts.
unfoldable pub list_drafts : Disk → List String
unfolding sort
list_drafts d = sort (keys d.drafts)

-- Each name is not after those behind it.
abbrev pub IsSorted : List String → Type 0
IsSorted [] = Unit
IsSorted (x ∷ xs) = All (λ y. text_le x y ≡ true) xs × IsSorted xs
