-- ===== src/Store/Migrate.antt =====
-- crates/authz-store/src/db.rs and migrations.rs: which migrations a database has seen.
use Prim.Native.Nat.{ℕ, ◌≤◌}
use paac.Prelude.{
  String, Bool, true, List, [], ◌∷◌, ◌++◌, ltb, ◌≡◌, arith, if◌then◌else◌, Bool-cases, inl, inr,
}

-- The rows of schema_migrations, and whether the tables of the second script are there.
pub record Schema : Type 0 where
  pub applied : List (ℕ × String)
  pub tables : Bool

-- `SELECT COALESCE(MAX(version), 0)`
unfoldable pub max_version : List (ℕ × String) → ℕ
max_version [] = 0
max_version ((v, at) ∷ rows) = let m : ℕ = max_version rows in if ltb m v then v else m

unfoldable pub migrate : String → Schema → Schema
unfolding max_version
migrate now schema =
    if ltb (max_version schema.applied) 1
    then record { applied = schema.applied ++ (1, now) ∷ []; tables = true }
    else schema

max_version-append :
    (rows : List (ℕ × String)) (v : ℕ) (at : String) → v ≤ max_version (rows ++ (v, at) ∷ [])
unfolding max_version
max_version-append [] v at = ground arith
max_version-append ((u, t) ∷ rows) v at = ground (arith, max_version-append rows v at)

-- Opening a database that was opened before changes nothing of its schema: the migration runs once,
-- and its version is recorded once, with the time of the first run.
pub migrate_idem :
    (schema : Schema) (first later : String)
    → migrate later (migrate first schema) ≡ migrate first schema
unfolding migrate
migrate_idem schema first later = elim (Bool-cases (ltb (max_version schema.applied) 1)) [
  | inl new ↦ let seen = max_version-append schema.applied 1 first in rw new (ground arith)
  | inr old ↦ rw old (rw old)
]
