-- ===== src/Service.antt =====
-- crates/authz-gateway/src/main.rs: the small gateway. Its handlers take the service's state and return
-- their answer and the new state; an error is a status and a text.
pub mod Laws
use Prim.Native.Nat.{ℕ}
use paac.Prelude.{
  String, ◌^^◌, Option, none, some, List, [], ◌∷◌, IndexMap, lookup, insert, Result, ok, err, panic,
  ◌>>=◌, map_err, ok_or, or_else,
}
use paac.Core.Cedar.{Cedar}
use paac.Core.Request.{AuthzRequest}
use paac.Core.Decision.{AuthzDecision, Stamp}
use paac.Core.Evaluate.{EvaluatorConfig, evaluate}
use paac.Policy.Dsl.{parse_dsl}
use paac.Policy.Sign.{SignedBundle}
use paac.Policy.Store.{PolicyRevision, Disk, policy_set_from_deployed, read_active_dsl}
use paac.Board.{PolicyMatrix, build_matrix}
use paac.Suggest.{LineFormat, append_audit}
use paac.Json.{Json, text, object, end, field}
use paac.Proxy.Auth.{take}
use paac.Proxy.Error.{show_authz, show_policy}

-- The policy store, the lines of the audit file, and the decisions that are remembered.
pub record AppState : Type 0 where
  pub store : Disk
  pub audit : List String
  pub decisions : IndexMap AuthzDecision

-- `AppState { store, audit_path, decisions: HashMap::new() }`, over the audit file that is there
unfoldable pub app_new : Disk → List String → AppState
app_new store audit = record { store = store; audit = audit; decisions = [] }

abbrev pub Served : Type 0 → Type 0
Served A = Result (ℕ × String) A

unfoldable pub health : Json
health = object (
    field "status" (text "ok")
      (field "service" (text "authz-gateway") (field "version" (text "0.1.0") end)))

-- the key and the first characters of the signature, whose base64 is ASCII
unfoldable pub short_signature : SignedBundle → String
short_signature b = b.key_id ^^ (":" ^^ take 16 b.signature_b64)

unfoldable pub signature_of : Option SignedBundle → Option String
unfolding short_signature
signature_of none = none
signature_of (some b) = some (short_signature b)

-- `decisions.read().get(&id)`
unfoldable pub explain : String → AppState → Served AuthzDecision
explain id s = ok_or (404, "decision not found") (lookup id s.decisions)

module _ (engine : Cedar) (schema : String) (lines : LineFormat) where
  -- The settings of the evaluator, read anew from the store for every request.
  unfoldable pub deployed_config : Disk → Served (EvaluatorConfig engine)
  unfolding signature_of
  deployed_config store = do
    deployed ← map_err (λ e. (503, show_policy e)) (policy_set_from_deployed engine schema store)
    ok (record {
      policy_set = deployed.0;
      policy_revision = deployed.1.revision;
      policy_signature = signature_of deployed.1.bundle;
      group_members = [];
    })

  unfoldable pub decide : Stamp → AuthzRequest → Disk → Served AuthzDecision
  unfolding deployed_config
  decide stamp req store = do
    cfg ← deployed_config store
    map_err (λ e. (400, show_authz e)) (evaluate engine stamp req cfg)

  -- What follows the evaluation: the line of the audit file, and the map. The source goes on where the
  -- line cannot be written, which is taken not to happen.
  unfoldable pub remember : AuthzDecision → AppState → AppState
  remember d s = record s {
    audit = append_audit lines d s.audit;
    decisions = insert d.evidence.decision_id d s.decisions;
  }

  unfoldable pub conclude : Served AuthzDecision → AppState → Served AuthzDecision × AppState
  unfolding remember
  conclude (ok d) s = (ok d, remember d s)
  conclude (err e) s = (err e, s)
  conclude panic s = (panic, s)

  unfoldable pub check : Stamp → AuthzRequest → AppState → Served AuthzDecision × AppState
  unfolding decide conclude
  check stamp req s = conclude (decide stamp req s.store) s

-- `board_matrix`; reading the active text cannot fail here, and a text that does not parse shows no
-- policies.
unfoldable pub board_matrix : AppState → Served PolicyMatrix
board_matrix s = elim (parse_dsl (read_active_dsl s.store)) [
  | ok policies ↦ ok (build_matrix policies)
  | err e ↦ ok (build_matrix [])
  | panic ↦ panic
]
