-- ===== src/Proxy/Connectors.antt =====
-- crates/authz-llm-proxy/src/connectors/mod.rs: what executes a tool call that was let through.
use Prim.Native.String.{[], ◌∷◌}
use paac.Prelude.{
  String, ◌^^◌, true, Option, none, some, Result, ok, is_char, trim_end_by, ◌≡◌, refl, ap,
}
use paac.Json.{Json, text, boolean, array, object, nil, end, field}
use paac.Proxy.State.{ToolCall}

pub data DataConnector : Type 0 where
  mock_data : DataConnector
  http_data : String → DataConnector

-- `AppState::new` takes the one that the settings ask for.
unfoldable pub connector_of : Option String → DataConnector
connector_of none = mock_data
connector_of (some url) = http_data url

unfoldable pub mock_answer : ToolCall → Json
mock_answer call = object (
    field "tool" (text call.name) (
      field "id" (text call.id) (
        field "ok" (boolean true) (
          field "rows" (array nil)
            (field "note" (text "mock connector — no production data touched") end)))))

-- `format!("{}/tools/{}", self.base_url.trim_end_matches('/'), call.name)`
unfoldable pub tool_url : String → String → String
tool_url base name = trim_end_by (is_char b'/') base ^^ ("/tools/" ^^ name)

-- `post` sends a JSON body and reads the JSON of the answer, whatever its status.
unfoldable pub execute :
    (String → Json → Result String Json) → DataConnector → ToolCall → Result String Json
unfolding mock_answer tool_url
execute post mock_data call = ok (mock_answer call)
execute post (http_data base) call = post (tool_url base call.name) call.arguments

trim_end_by-slash :
    (base : String) → trim_end_by (is_char b'/') (base ^^ "/") ≡ trim_end_by (is_char b'/') base
unfolding trim_end_by ◌^^◌
trim_end_by-slash [] = refl
trim_end_by-slash (c ∷ s) = rw (trim_end_by-slash s) refl

-- A slash at the end of the base address makes no difference to what is executed.
pub execute_slash :
    (post : String → Json → Result String Json) (base : String) (call : ToolCall)
    → execute post (http_data (base ^^ "/")) call ≡ execute post (http_data base) call
unfolding execute tool_url
execute_slash post base call =
    ap (λ b. post (b ^^ ("/tools/" ^^ call.name)) call.arguments) (trim_end_by-slash base)
