-- ===== src/Catalog/Validation.antt =====
-- Which catalogs `validate_catalog` of crates/authz-catalog/src/catalog.rs accepts.
use paac.Prelude.{String, ◌≡◌, ◌↔◌, ◌⊎◌, refl, false, List, [], ◌∷◌, ok, All, has, is_nil, arith}
use paac.Core.Request.{is_blank}
use paac.Catalog.Defs.{
  CatalogResource, ToolMapping, ResourceCatalog, validate_resources, validate_tools,
  validate_catalog,
}

abbrev pub IsNamed : CatalogResource → Type 0
IsNamed r = (is_blank r.id ≡ false) × (is_blank r.kind ≡ false)

abbrev pub IsComplete : ToolMapping → Type 0
IsComplete t =
    (is_blank t.tool_name ≡ false)
    × (is_blank t.resource_kind ≡ false)
    × (is_blank t.action ≡ false)

-- No identifier is among the earlier ones, nor twice in the list.
abbrev pub AreDistinct : List CatalogResource → List String → Type 0
AreDistinct [] ids = Unit
AreDistinct (r ∷ rs) ids = (has ids r.id ≡ false) × AreDistinct rs (r.id ∷ ids)

pub record IsValid (cat : ResourceCatalog) : Type 0 where
  pub not_empty : (is_nil cat.resources ≡ false) ⊎ (is_nil cat.tools ≡ false)
  pub named : All IsNamed cat.resources
  pub distinct : AreDistinct cat.resources []
  pub complete : All IsComplete cat.tools

validate_resources_iff :
    (rs : List CatalogResource) (ids : List String)
    → (validate_resources rs ids ≡ ok tt) ↔ (All IsNamed rs × AreDistinct rs ids)
unfolding validate_resources
validate_resources_iff [] ids = (λ h. (tt, tt), λ h. refl)
validate_resources_iff (r ∷ rs) ids =
    let ih = validate_resources_iff rs (r.id ∷ ids) in (λ h. ground arith, λ h. ground arith)

validate_tools_iff : (ts : List ToolMapping) → (validate_tools ts ≡ ok tt) ↔ All IsComplete ts
unfolding validate_tools
validate_tools_iff [] = (λ h. tt, λ h. refl)
validate_tools_iff (t ∷ ts) =
    let ih = validate_tools_iff ts in (λ h. ground arith, λ h. ground arith)

-- A catalog is accepted exactly when it has a resource or a tool, its resources have an identifier
-- and a kind that are not blank, no identifier comes twice, and its tools have a name, a resource
-- kind and an action that are not blank.
pub validate_catalog_iff : (cat : ResourceCatalog) → (validate_catalog cat ≡ ok tt) ↔ IsValid cat
unfolding validate_catalog
validate_catalog_iff cat =
    let resources = validate_resources_iff cat.resources [] in
    let tools = validate_tools_iff cat.tools in (λ h. ground arith, λ h. ground arith)
