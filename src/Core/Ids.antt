-- ===== src/Core/Ids.antt =====
-- crates/authz-core/src/ids.rs: the macro `id_newtype` and its six types.
pub mod Laws
use paac.Prelude.{String, ◌^^◌, ok, err, trim, is_empty, if◌then◌else◌}
use paac.Core.Error.{Authz, invalid_request}

pub data IdKind : Type 0 where
  principal_id resource_kind resource_id decision_id action_name agent_id : IdKind

unfoldable pub label : IdKind → String
label principal_id = "principal id"
label resource_kind = "resource kind"
label resource_id = "resource id"
label decision_id = "decision id"
label action_name = "action name"
label agent_id = "agent id"

-- A validated text; `Identifier principal_id` is the program's `PrincipalId`.
pub record Identifier (k : IdKind) : Type 0 where
  pub text : String

unfoldable pub new : (k : IdKind) → String → Authz (Identifier k)
new k v =
    let t = trim v in
    if is_empty t
    then err (invalid_request (label k ^^ " must be non-empty"))
    else ok (record { text = t })

pub from_trusted : (k : IdKind) → String → Identifier k
from_trusted k v = record { text = v }
