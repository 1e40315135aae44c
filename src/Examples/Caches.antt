-- ===== src/Examples/Caches.antt =====
-- Tests of the cache in crates/authz-identity/src/cache.rs.
use Prim.Native.Nat.{◌-◌, ◌≤◌}
use paac.Prelude.{String, ◌≡◌, refl, Option, none, some, [], ◌∷◌, str_eq, ltb, arith, if◌then◌else◌}
use paac.Identity.Cache.{IdentityCache, get, put, clear_expired}
use paac.Identity.Cache.Laws.{Distinct, get-put, get-clear_expired}
use paac.Examples.World.{cache, alice_identity}

-- One entry that is old at 400, and one that is not.
abbrev filled : IdentityCache
filled = record cache {
  inner =
      ("old", record { identity = alice_identity; provenance = "jwt"; inserted_at = 10 })
      ∷ (("new", record { identity = alice_identity; provenance = "jwt"; inserted_at = 350 }) ∷ []);
}

filled-Distinct : Distinct filled.inner
unfolding paac.Prelude.lookup
filled-Distinct = (refl, (refl, tt))

get-put_example : get 701 "old" (put 400 "old" alice_identity "jwt" filled) ≡ (
    if str_eq "old" "old"
    then (if ltb filled.ttl (701 - 400) then none else some alice_identity)
    else get 701 "old" filled)
get-put_example = get-put filled 400 701 "old" "old" alice_identity "jwt"

in_order : 400 ≤ 500
in_order = omega arith

get-clear_expired_example : get 500 "new" (clear_expired 400 filled) ≡ get 500 "new" filled
get-clear_expired_example = get-clear_expired filled 400 500 "new" filled-Distinct in_order
