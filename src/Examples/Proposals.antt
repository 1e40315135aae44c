-- ===== src/Examples/Proposals.antt =====
-- Tests of the catalog and of the bridge in crates/authz-catalog/src and crates/authz-llm-bridge/src.
use Prim.Native.Nat.{ℕ}
use paac.Prelude.{
  String, ◌^^◌, ◌≡◌, ◌≢◌, ◌↔◌, ◌⊎◌, refl, ap, code, arith, leb, Bool, true, false, Option, none,
  some, List, [], ◌∷◌, lookup, ok, err, panic, str_eq, if◌then◌else◌,
}
use paac.Core.Request.{AuthzRequest}
use paac.Json.{Json, text, object, field, end}
use paac.Catalog.{
  CatalogResource, ToolMapping, ResourceCatalog, find_tool, resource_arg, authz_for_tool,
  validate_catalog,
}
use paac.Catalog.Laws.{NotUnder, lookup-authz_for_tool}
use paac.Bridge.{Native, NlExtraction, Bridged, plain, extract_structured, bind_extraction}
use paac.Bridge.Laws.{IsProposal, bind_extraction-IsProposal}
use paac.Examples.Toy.{alice, request, catalog, native}

abbrev shown : Json → String
shown v = "{}"

abbrev args : Json
args = object (field "table" (text "db.hr.salaries") end)

-- what tells two texts apart by their first characters
abbrev first_code : String → ℕ
first_code String.[] = 0
first_code (String.◌∷◌ c s) = code c

tool_name-NotUnder : NotUnder "arg_" "tool_name"
unfolding ◌^^◌
tool_name-NotUnder r e = let codes : ◌≡◌ {A = ℕ} 97 116 = ap first_code e in omega arith

unmapped :
    (m : ToolMapping)
    → find_tool catalog "drop_all" ≡ some m
    → lookup "tool_name" m.arg_mappings ≡ none
unfolding find_tool
unmapped m h = cc

lookup-authz_for_tool_example :
    lookup "tool_name" (authz_for_tool shown catalog alice "drop_all" args).context.values
    ≡ (if str_eq "tool_name" "tool_name" then some "drop_all" else none)
lookup-authz_for_tool_example =
    lookup-authz_for_tool shown "tool_name" catalog alice "drop_all" args tool_name-NotUnder
      unmapped

abbrev question : String
question = "show me the travel expenses of alice"

abbrev extraction : NlExtraction native
extraction = elim (extract_structured native question) [
  | ok ext ↦ ext
  | err e ↦ plain native "" "" "" none 0
  | panic ↦ plain native "" "" "" none 0
]

abbrev proposal : AuthzRequest
proposal = elim (bind_extraction native alice extraction none) [
  | ok req ↦ req
  | err e ↦ request
  | panic ↦ request
]

bound : bind_extraction native alice extraction none ≡ ok proposal
unfolding bind_extraction paac.Bridge.propose paac.Bridge.assemble paac.Core.Builder.principal_obj
    paac.Core.Ids.new paac.Prelude.trim paac.Core.Builder.action extract_structured
    paac.Bridge.heuristics paac.Prelude.contains paac.Prelude.to_ascii_lowercase
    paac.Prelude.strip_prefix paac.Core.Builder.resource paac.Bridge.bind_resource
    paac.Core.Builder.subject paac.Core.Builder.build paac.Bridge.add_reports
    package.native.Mathlib.Bridge.IsLe package.native.Mathlib.Decide.dec_le
    package.native.Mathlib.Decide.dec_lt paac.Bridge.fits_kind paac.Bridge.mentions
    paac.Bridge.proposal_context paac.Catalog.find_resource paac.Catalog.insert_some
    paac.Core.Builder.context_kv paac.Core.Builder.record_delegation paac.Core.Builder.relationship
    paac.Core.Ids.label paac.Core.Request.action_new paac.Core.Request.validate paac.Prelude.insert
    paac.Prelude.ascii paac.Prelude.is_whitespace paac.Prelude.join paac.Prelude.lower_char
    paac.Prelude.show_nat paac.Prelude.trim_end_by paac.Prelude.trim_start_by ◌^^◌
bound = refl

bind_extraction-IsProposal_example : IsProposal native alice extraction proposal
bind_extraction-IsProposal_example =
    bind_extraction-IsProposal native alice extraction none proposal bound
