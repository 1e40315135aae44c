-- ===== src/Identity/Cache/Laws.antt =====
-- What the operations of crates/authz-identity/src/cache.rs do to a later `get`.
use Prim.Native.Nat.{ℕ, ◌-◌, ◌≤◌}
use paac.Prelude.{
  String, Bool, false, ◌≡◌, refl, inl, inr, none, some, [], ◌∷◌, IndexMap, lookup, insert, remove,
  lookup-insert, lookup-remove, leb, ltb, arith, str_eq, eq_iff, Bool-cases, Option-cases,
  if◌then◌else◌,
}
use paac.Identity.Model.{CanonicalIdentity}
use paac.Identity.Cache.{CachedIdentity, IdentityCache, retain, get, put, invalidate, clear_expired}

-- A map that holds no key twice, as a `HashMap` does.
abbrev pub Distinct : {V : Type 0} → IndexMap V → Type 0
Distinct [] = Unit
Distinct ((k, v) ∷ m) = (lookup k m ≡ none) × Distinct m

module _ {V : Type 0} where
  lookup-insert-none :
      (j k : String) (v : V) (m : IndexMap V)
      → str_eq j k ≡ false
      → lookup j m ≡ none
      → lookup j (insert k v m) ≡ none
  lookup-insert-none j k v m other h = ground (arith, lookup-insert k j v m, eq_iff j k, eq_iff k j)

  pub insert-Distinct : (k : String) (v : V) (m : IndexMap V) → Distinct m → Distinct (insert k v m)
  unfolding lookup insert
  insert-Distinct k v [] h = (refl, tt)
  insert-Distinct k v ((j, w) ∷ m) h = elim (Bool-cases (str_eq j k)) [
    | inl same ↦ rw same h
    | inr other ↦ rw other (lookup-insert-none j k v m other h.0, insert-Distinct k v m h.1)
  ]

  lookup-retain-none :
      (p : V → Bool) (k : String) (m : IndexMap V)
      → lookup k m ≡ none
      → lookup k (retain p m) ≡ none
  unfolding lookup retain
  lookup-retain-none p k [] h = refl
  lookup-retain-none p k ((j, v) ∷ m) h = ground (arith, lookup-retain-none p k m)

  retain-Distinct : (p : V → Bool) (m : IndexMap V) → Distinct m → Distinct (retain p m)
  unfolding retain
  retain-Distinct p [] h = tt
  retain-Distinct p ((k, v) ∷ m) h = elim (Bool-cases (p v)) [
    | inl kept ↦ rw kept (lookup-retain-none p k m h.0, retain-Distinct p m h.1)
    | inr dropped ↦ rw dropped (retain-Distinct p m h.1)
  ]

  lookup-retain :
      (p : V → Bool) (k : String) (m : IndexMap V) {v : V}
      → Distinct m
      → lookup k m ≡ some v
      → lookup k (retain p m) ≡ (if p v then some v else none)
  unfolding lookup retain
  lookup-retain p k [] d h = cc
  lookup-retain p k ((j, w) ∷ m) {v} d h = elim (Bool-cases (str_eq j k)) [
    | inl same ↦
        let gone : lookup k (retain p m) ≡ none =
          lookup-retain-none p k m (ground (arith, eq_iff j k)) in
        let it : w ≡ v = ground arith in ground arith
    | inr other ↦ let later = lookup-retain p k m d.1 (rw other at h) in ground arith
  ]

  remove-Distinct : (k : String) (m : IndexMap V) → Distinct m → Distinct (remove k m)
  unfolding remove
  remove-Distinct k [] h = tt
  remove-Distinct k ((j, v) ∷ m) h = elim (Bool-cases (str_eq j k)) [
    | inl same ↦ rw same (remove-Distinct k m h.1)
    | inr other ↦ rw other (ground (arith, lookup-remove k j m), remove-Distinct k m h.1)
  ]

-- Every operation keeps a cache that holds no key twice so.
pub cache-Distinct :
    (c : IdentityCache) (now : ℕ) (key : String) (id : CanonicalIdentity) (provenance : String)
    → Distinct c.inner
    → Distinct (put now key id provenance c).inner
      × Distinct (invalidate key c).inner
      × Distinct (clear_expired now c).inner
unfolding put invalidate clear_expired
cache-Distinct c now key id provenance h =
    (insert-Distinct key _ c.inner h, remove-Distinct key c.inner h, retain-Distinct _ c.inner h)

-- After a `put`, a `get` of that key finds the identity exactly while no more time than the
-- lifetime has passed; a `get` of another key sees no difference.
pub get-put :
    (c : IdentityCache) (before now : ℕ) (key k : String) (id : CanonicalIdentity)
    (provenance : String)
    → get now k (put before key id provenance c)
      ≡ (if str_eq key k then (if ltb c.ttl (now - before) then none else some id) else get now k c)
unfolding get put
get-put c before now key k id provenance =
    let stored : CachedIdentity = record {
      identity = id;
      provenance = provenance;
      inserted_at = before;
    } in
    ground (arith, lookup-insert key k stored c.inner)

-- After an `invalidate`, a `get` of that key finds nothing, and one of another key what it did.
pub get-invalidate :
    (c : IdentityCache) (now : ℕ) (key k : String)
    → get now k (invalidate key c) ≡ (if str_eq key k then none else get now k c)
unfolding get invalidate
get-invalidate c now key k = ground (arith, lookup-remove key k c.inner)

-- In a cache that holds no key twice, clearing expired entries is not seen by a `get` at that
-- time or later.
pub get-clear_expired :
    (c : IdentityCache) (before now : ℕ) (k : String)
    → Distinct c.inner
    → before ≤ now
    → get now k (clear_expired before c) ≡ get now k c
unfolding get clear_expired
get-clear_expired c before now k d le = elim (Option-cases (lookup k c.inner)) [
  | inl absent ↦
      let still = lookup-retain-none (λ v. leb (before - v.inserted_at) c.ttl) k c.inner absent in
      ground arith
  | inr (v, present) ↦
      let kept = lookup-retain (λ v. leb (before - v.inserted_at) c.ttl) k c.inner d present in
      ground arith
]
