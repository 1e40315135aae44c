-- ===== src/Board/Laws.antt =====
-- Which roles the matrix of crates/authz-board/src/lib.rs has.
use paac.Prelude.{
  String, Bool, false, not, ◌&&◌, ◌||◌, ◌≡◌, refl, List, [], ◌∷◌, ◌++◌, has, any, is_nil, arith,
  str_eq, eq_iff, if◌then◌else◌,
}
use paac.Policy.Dsl.{DslPolicy}
use paac.Board.{push_new, push_all, collect_roles, build_matrix}

pub has-append : (xs ys : List String) (r : String) → has (xs ++ ys) r ≡ (has xs r || has ys r)
has-append [] ys r = refl
has-append (x ∷ xs) ys r = let rest = has-append xs ys r in ground arith

has-push_new :
    (x : String) (rs : List String) (r : String) → has (push_new x rs) r ≡ (str_eq x r || has rs r)
unfolding push_new
has-push_new x rs r = let grown = has-append rs (x ∷ []) r in ground (arith, eq_iff x r)

has-push_all : (xs rs : List String) (r : String) → has (push_all xs rs) r ≡ (has xs r || has rs r)
unfolding push_all
has-push_all [] rs r = refl
has-push_all (x ∷ xs) rs r =
    let rest = has-push_all xs (push_new x rs) r in let here = has-push_new x rs r in ground arith

-- A policy names the role, or any role at all.
abbrev pub names_role : String → DslPolicy → Bool
names_role r p = has p.when_roles r || has p.unless_roles r

abbrev pub names_some : DslPolicy → Bool
names_some p = not (is_nil p.when_roles && is_nil p.unless_roles)

has-collect_roles :
    (ps : List DslPolicy) (rs : List String) (r : String)
    → has (collect_roles ps rs) r ≡ (any (names_role r) ps || has rs r)
unfolding collect_roles
has-collect_roles [] rs r = refl
has-collect_roles (p ∷ ps) rs r =
    let rest = has-collect_roles ps (push_all p.unless_roles (push_all p.when_roles rs)) r in
    let unless = has-push_all p.unless_roles (push_all p.when_roles rs) r in
    let when = has-push_all p.when_roles rs r in ground arith

is_nil-push_new : (x : String) (rs : List String) → is_nil (push_new x rs) ≡ false
unfolding push_new
is_nil-push_new x [] = refl
is_nil-push_new x (r ∷ rs) = ground arith

is_nil-push_all : (xs rs : List String) → is_nil (push_all xs rs) ≡ (is_nil xs && is_nil rs)
unfolding push_all
is_nil-push_all [] rs = refl
is_nil-push_all (x ∷ xs) rs =
    let rest = is_nil-push_all xs (push_new x rs) in let here = is_nil-push_new x rs in ground arith

is_nil-collect_roles :
    (ps : List DslPolicy) (rs : List String)
    → is_nil (collect_roles ps rs) ≡ (not (any names_some ps) && is_nil rs)
unfolding collect_roles
is_nil-collect_roles [] rs = refl
is_nil-collect_roles (p ∷ ps) rs =
    let rest = is_nil-collect_roles ps (push_all p.unless_roles (push_all p.when_roles rs)) in
    let unless = is_nil-push_all p.unless_roles (push_all p.when_roles rs) in
    let when = is_nil-push_all p.when_roles rs in ground arith

-- A role is one of the matrix exactly when a policy names it, in `when` or in `unless`; if no policy
-- names a role at all, the matrix has the role "*" and no other.
pub build_matrix-has :
    (policies : List DslPolicy) (r : String)
    → has (build_matrix policies).roles r
      ≡ (if any names_some policies then any (names_role r) policies else str_eq "*" r)
unfolding build_matrix
build_matrix-has policies r =
    let empty = is_nil-collect_roles policies [] in
    let found = has-collect_roles policies [] r in ground arith
