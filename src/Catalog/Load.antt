-- ===== src/Catalog/Load.antt =====
-- crates/authz-catalog/src/catalog.rs: reading a catalog from a file, over the readers of JSON and YAML.
use paac.Prelude.{String, Result, ◌>>=◌, map_err, ends_with, if◌then◌else◌}
use paac.Catalog.Defs.{ResourceCatalog, CatalogError, io, parse}

-- `serde_json::from_str` and `serde_yaml::from_str` for the catalog's type
pub record CatalogReader : Type 0 where
  pub from_json : String → Result String ResourceCatalog
  pub from_yaml : String → Result String ResourceCatalog

-- The path, and what reading the file there gives.
unfoldable pub load_catalog :
    CatalogReader → String → Result String String → Result CatalogError ResourceCatalog
load_catalog reader path file = do
  text ← map_err io file
  map_err parse (if ends_with path ".json" then reader.from_json text else reader.from_yaml text)
