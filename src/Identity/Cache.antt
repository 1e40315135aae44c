-- ===== src/Identity/Cache.antt =====
-- crates/authz-identity/src/cache.rs: identities that expire. The clock is an argument of each call,
-- in the ticks of `Instant`; `elapsed` stops at 0, as the subtraction does.
pub mod Laws
use Prim.Native.Nat.{ℕ, ◌-◌}
use paac.Prelude.{
  String, Bool, Option, none, some, [], ◌∷◌, IndexMap, lookup, insert, remove, leb, ltb,
  if◌then◌else◌,
}
use paac.Identity.Model.{CanonicalIdentity}

pub record CachedIdentity : Type 0 where
  pub identity : CanonicalIdentity
  pub provenance : String
  pub inserted_at : ℕ

pub record IdentityCache : Type 0 where
  pub ttl : ℕ
  pub inner : IndexMap CachedIdentity

unfoldable pub cache_new : ℕ → IdentityCache
cache_new ttl = record { ttl = ttl; inner = [] }

-- `HashMap::retain` with a test on the values
unfoldable pub retain : {V : Type 0} → (V → Bool) → IndexMap V → IndexMap V
retain p [] = []
retain p ((k, v) ∷ m) = let rest = retain p m in if p v then (k, v) ∷ rest else rest

unfoldable pub get_with_provenance : ℕ → String → IdentityCache → Option CachedIdentity
get_with_provenance now key c = elim (lookup key c.inner) [
  | none ↦ none
  | some entry ↦ if ltb c.ttl (now - entry.inserted_at) then none else some entry
]

unfoldable pub get : ℕ → String → IdentityCache → Option CanonicalIdentity
get now key c = elim (lookup key c.inner) [
  | none ↦ none
  | some entry ↦ if ltb c.ttl (now - entry.inserted_at) then none else some entry.identity
]

unfoldable pub put : ℕ → String → CanonicalIdentity → String → IdentityCache → IdentityCache
put now key identity provenance c = record c {
  inner =
      insert key (record { identity = identity; provenance = provenance; inserted_at = now })
        c.inner;
}

unfoldable pub invalidate : String → IdentityCache → IdentityCache
invalidate key c = record c { inner = remove key c.inner }

unfoldable pub clear_expired : ℕ → IdentityCache → IdentityCache
unfolding retain
clear_expired now c = record c { inner = retain (λ v. leb (now - v.inserted_at) c.ttl) c.inner }
