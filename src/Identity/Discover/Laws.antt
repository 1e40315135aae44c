-- ===== src/Identity/Discover/Laws.antt =====
-- What the merging of the stores in crates/authz-identity/src/idp.rs keeps.
use paac.Prelude.{
  String, ◌≡◌, refl, ◌∙◌, Option, none, some, List, [], ◌∷◌, map, IndexMap, lookup, insert,
  lookup-insert, find, All, arith, str_eq, eq_iff, Option-cases, inl, inr,
}
use paac.Identity.Cache.Laws.{Distinct, insert-Distinct}
use paac.Identity.Discover.{insert_first, dedup, Merged, final_snapshot}

module _ {A : Type 0} (key : A → String) where
  -- The first element with a key.
  abbrev pub first_with : String → List A → Option A
  first_with k xs = find (λ x. str_eq (key x) k) xs

  -- No key twice.
  abbrev pub HasNoRepeat : List A → Type 0
  HasNoRepeat [] = Unit
  HasNoRepeat (x ∷ xs) = (first_with (key x) xs ≡ none) × HasNoRepeat xs

  -- The elements of a list without those that come after another one with the same key: for each
  -- key the first element that has it. The order is not a part of it.
  pub record IsDeduplicated (xs ys : List A) : Type 0 where
    pub firsts : (k : String) → first_with k ys ≡ first_with k xs
    pub unique : HasNoRepeat ys

  abbrev IsKeyed : IndexMap A → Type 0
  IsKeyed m = All (λ e. key e.1 ≡ e.0) m

  abbrev or_first : Option A → Option A → Option A
  or_first (some y) o = some y
  or_first none o = o

  insert-IsKeyed :
      (k : String) (x : A) (m : IndexMap A) → key x ≡ k → IsKeyed m → IsKeyed (insert k x m)
  unfolding insert
  insert-IsKeyed k x [] e h = (e, tt)
  insert-IsKeyed k x ((j, y) ∷ m) e h = ground (arith, eq_iff j k, insert-IsKeyed k x m)

  insert_first-IsKeyed :
      (xs : List A) (m : IndexMap A) → IsKeyed m → IsKeyed (insert_first key xs m)
  unfolding insert_first
  insert_first-IsKeyed [] m h = h
  insert_first-IsKeyed (x ∷ xs) m h = elim (Option-cases (lookup (key x) m)) [
    | inl new ↦ rw new (insert_first-IsKeyed xs _ (insert-IsKeyed (key x) x m refl h))
    | inr (y, old) ↦ rw old (insert_first-IsKeyed xs m h)
  ]

  insert_first-Distinct :
      (xs : List A) (m : IndexMap A) → Distinct m → Distinct (insert_first key xs m)
  unfolding insert_first
  insert_first-Distinct [] m h = h
  insert_first-Distinct (x ∷ xs) m h = elim (Option-cases (lookup (key x) m)) [
    | inl new ↦ rw new (insert_first-Distinct xs _ (insert-Distinct (key x) x m h))
    | inr (y, old) ↦ rw old (insert_first-Distinct xs m h)
  ]

  lookup-insert_first :
      (k : String) (xs : List A) (m : IndexMap A)
      → lookup k (insert_first key xs m) ≡ or_first (lookup k m) (first_with k xs)
  unfolding insert_first
  lookup-insert_first k [] m = ground arith
  lookup-insert_first k (x ∷ xs) m = elim (Option-cases (lookup (key x) m)) [
    | inl new ↦ rw new (
        rw (lookup-insert_first k xs (insert (key x) x m))
          (ground (arith, lookup-insert (key x) k x m, eq_iff (key x) k)))
    | inr (y, old) ↦ rw old (rw (lookup-insert_first k xs m) (ground (arith, eq_iff (key x) k)))
  ]

  -- The values of a map whose keys are those of its values.
  first_with-values :
      (k : String) (m : IndexMap A) → IsKeyed m → first_with k (map (λ e. e.1) m) ≡ lookup k m
  unfolding lookup
  first_with-values k [] h = refl
  first_with-values k ((j, x) ∷ m) h = rw h.0 (rw (first_with-values k m h.1))

  values-HasNoRepeat : (m : IndexMap A) → IsKeyed m → Distinct m → HasNoRepeat (map (λ e. e.1) m)
  values-HasNoRepeat [] h d = tt
  values-HasNoRepeat ((j, x) ∷ m) h d =
      (rw h.0 (first_with-values j m h.1 ∙ d.0), values-HasNoRepeat m h.1 d.1)

  pub dedup-IsDeduplicated : (xs : List A) → IsDeduplicated xs (dedup key xs)
  unfolding dedup lookup
  dedup-IsDeduplicated xs =
      let keyed = insert_first-IsKeyed xs [] tt in
      record {
        firsts = λ k. first_with-values k _ keyed ∙ lookup-insert_first k xs [];
        unique = values-HasNoRepeat _ keyed (insert_first-Distinct xs [] tt);
      }

-- The merged snapshot holds no identifier of a user and none of a group twice; who or what it holds
-- under one is the first that the stores gave, and it holds something under each that they gave.
pub final_snapshot-IsDeduplicated :
    (m : Merged) (now : String)
    → IsDeduplicated (λ u. u.id) m.users (final_snapshot m now).users
      × IsDeduplicated (λ g. g.id) m.groups (final_snapshot m now).groups
unfolding final_snapshot
final_snapshot-IsDeduplicated m now =
    (dedup-IsDeduplicated (λ u. u.id) m.users, dedup-IsDeduplicated (λ g. g.id) m.groups)
