-- ===== src/Board.antt =====
-- crates/authz-board/src/lib.rs: the matrix of roles and resources.
pub mod Laws
use paac.Prelude.{
  String, ◌^^◌, Bool, ◌&&◌, ◌||◌, List, [], ◌∷◌, ◌++◌, map, has, keep, is_nil, join, str_eq,
  if◌then◌else◌,
}
use paac.Policy.Dsl.{DslEffect, allow, deny, review, DslPolicy}

pub record MatrixCell : Type 0 where
  pub role : String
  pub resource : String
  pub policies : List String
  pub effect_summary : String

pub record PolicyMatrix : Type 0 where
  pub roles : List String
  pub resources : List String
  pub cells : List MatrixCell

-- `if !rs.contains(r) { rs.push(r) }`
unfoldable pub push_new : String → List String → List String
push_new r rs = if has rs r then rs else rs ++ r ∷ []

unfoldable pub push_all : List String → List String → List String
unfolding push_new
push_all [] rs = rs
push_all (x ∷ xs) rs = push_all xs (push_new x rs)

unfoldable pub collect_roles : List DslPolicy → List String → List String
unfolding push_all
collect_roles [] rs = rs
collect_roles (p ∷ ps) rs = collect_roles ps (push_all p.unless_roles (push_all p.when_roles rs))

unfoldable pub collect_resources : List DslPolicy → List String → List String
unfolding push_new
collect_resources [] rs = rs
collect_resources (p ∷ ps) rs = collect_resources ps (push_new p.resource rs)

-- the test of the filter
unfoldable pub applies : String → String → DslPolicy → Bool
applies role resource p =
    str_eq p.resource resource
    && (is_nil p.when_roles || (has p.when_roles role || has p.unless_roles role))

-- `format!("{:?}", effect)`
unfoldable pub show_effect : DslEffect → String
show_effect allow = "Allow"
show_effect deny = "Deny"
show_effect review = "Review"

unfoldable pub summary : List DslPolicy → String
unfolding show_effect
summary matched =
    if is_nil matched
    then "DENY (default)"
    else join "; " (map (λ p. show_effect p.effect ^^ (" " ^^ p.id)) matched)

unfoldable pub cell : List DslPolicy → String → String → MatrixCell
unfolding applies summary
cell policies role resource =
    let matched = keep (applies role resource) policies in
    record {
      role = role;
      resource = resource;
      policies = map (λ p. p.id) matched;
      effect_summary = summary matched;
    }

-- the two loops
unfoldable pub build_cells : List DslPolicy → List String → List String → List MatrixCell
unfolding cell
build_cells policies [] resources = []
build_cells policies (role ∷ roles) resources =
    map (cell policies role) resources ++ build_cells policies roles resources

unfoldable pub build_matrix : List DslPolicy → PolicyMatrix
unfolding collect_roles collect_resources build_cells
build_matrix policies =
    let named = collect_roles policies [] in
    let roles = if is_nil named then "*" ∷ [] else named in
    let resources = collect_resources policies [] in
    record { roles = roles; resources = resources; cells = build_cells policies roles resources }
