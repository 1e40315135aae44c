-- ===== src/Proxy/Pages.antt =====
-- crates/authz-llm-proxy/src/routes.rs: the pages that show the gateway's state and change nothing.
use Prim.Native.Nat.{ℕ}
use paac.Prelude.{String, ◌^^◌, Option, none, some, List, [], ◌∷◌, map, ok, err, panic, show_nat}
use paac.Core.Decision.{AuthzDecision}
use paac.Json.{Json, text, array, object, Items, nil, cons, end, field}
use paac.Policy.Dsl.{DslPolicy, parse_dsl}
use paac.Policy.Error.{Fallible}
use paac.Policy.Store.{Disk, read_active_dsl}
use paac.Board.{MatrixCell, PolicyMatrix, build_matrix}
use paac.Store.{PaacStore, recent_audit}
use paac.Suggest.{AuditRecord, LineFormat, recent_decisions}
use paac.Proxy.Config.{RunMode, production, development}
use paac.Proxy.State.{Metrics}

-- `format!("{:?}", mode).to_ascii_lowercase()`
unfoldable pub mode_name : RunMode → String
mode_name development = "development"
mode_name production = "production"

-- The version is the package's, which the build knows.
unfoldable pub health : String → RunMode → Json
unfolding mode_name
health version mode = object (
    field "status" (text "ok") (
      field "service" (text "paac-proxy")
        (field "version" (text version) (field "mode" (text (mode_name mode)) end))))

-- One counter of the page.
unfoldable pub counter : String → ℕ → String
counter name n = "# TYPE " ^^ (name ^^ (" counter\n" ^^ (name ^^ (" " ^^ (show_nat n ^^ "\n")))))

unfoldable pub metrics : Metrics → String
unfolding counter
metrics m =
    counter "paac_checks_total" m.checks_total
    ^^ (counter "paac_denies_total" m.denies_total
        ^^ (counter "paac_allows_total" m.allows_total
            ^^ counter "paac_upstream_calls" m.upstream_calls))

unfoldable pub json_items : List Json → Items
json_items [] = nil
json_items (j ∷ js) = cons j (json_items js)

unfoldable pub texts : List String → Json
unfolding json_items
texts ss = array (json_items (map (λ s. text s) ss))

-- `serde_json::to_value` of a cell and of a matrix
unfoldable pub cell_json : MatrixCell → Json
unfolding texts
cell_json c = object (
    field "role" (text c.role) (
      field "resource" (text c.resource)
        (field "policies" (texts c.policies) (field "effect_summary" (text c.effect_summary) end))))

unfoldable pub matrix_json : PolicyMatrix → Json
unfolding texts json_items cell_json
matrix_json m = object (
    field "roles" (texts m.roles) (
      field "resources" (texts m.resources)
        (field "cells" (array (json_items (map cell_json m.cells))) end)))

-- A text that does not parse shows no policies.
unfoldable pub shown : Fallible (List DslPolicy) → Fallible Json
unfolding matrix_json
shown (ok policies) = ok (matrix_json (build_matrix policies))
shown (err e) = ok (matrix_json (build_matrix []))
shown panic = panic

-- `board_matrix`, from the policy directory as it is on the disk
unfoldable pub board_matrix : Disk → Fallible Json
unfolding shown
board_matrix store = shown (parse_dsl (read_active_dsl store))

-- `board_decisions`: the rows of the database if there is one, else the records of the audit file.
module _ (decision_json : AuthzDecision → Json) (record_json : AuditRecord → Json)
    (lines : LineFormat) where
  unfoldable pub board_decisions : Option PaacStore → List String → Json
  unfolding json_items
  board_decisions (some store) file =
      object (field "decisions" (array (json_items (recent_audit decision_json 50 store))) end)
  board_decisions none file = object (
      field "decisions" (array (json_items (map record_json (recent_decisions lines 50 file)))) end)
