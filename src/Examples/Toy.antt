-- ===== src/Examples/Toy.antt =====
-- Small instances of the libraries that the program calls, and the data of the tests.
use Prim.Native.Nat.{ℕ}
use paac.Prelude.{
  String, ◌^^◌, Bool, true, false, Option, none, some, List, [], ◌∷◌, Result, ok, err, arith,
  eq_refl, IndexMap, str_eq, leb, ◌&&◌, ◌≡◌, refl, if◌then◌else◌,
}
use paac.Core.Request.{Principal, AuthzRequest, direct_reports, validate}
use paac.Core.Decision.{AuthzDecision, Stamp}
use paac.Core.Cedar.{Cedar, Verdict}
use paac.Core.Evaluate.{EvaluatorConfig, evaluate, prepare, decide}
use paac.Core.Entities.{build_entities}
use paac.Catalog.{ResourceCatalog}
use paac.Bridge.{Native}
use paac.Policy.Sign.{Crypto}
use paac.Policy.Sign.Laws.{CryptoLaws}

-- A policy set is the name of the action that it permits.
abbrev pub kernel : Cedar
kernel = record {
  TypeName = String;
  EntityId = String;
  Expression = String;
  Entity = String × String;
  Entities = List (String × String);
  Context = String;
  Request = String × String;
  PolicySet = String;
  PolicyId = String;
  parse_type = λ s. ok s;
  parse_id = λ s. ok s;
  parse_expression = λ s. ok s;
  new_entity = λ uid attrs parents. ok uid;
  from_entities = λ es. ok es;
  context_from_json = λ s. ok s;
  new_request = λ p a r c. ok (p.1, a.1);
  is_authorized = λ q set es.
      if str_eq q.1 set
      then record { decision = Verdict.allow; reason = "permit" ∷ []; errors = [] }
      else record { decision = Verdict.deny; reason = []; errors = [] };
  policy_annotation = λ set id. none;
  set_annotation = λ set id. some ("named " ^^ id);
  show_policy_id = λ id. id;
  parse_policy_set = λ s. ok "READ";
  validate = λ schema set. ok none;
}

-- A signature is the message with the secret before it, and a key is its own verifying key.
abbrev pub crypto : Crypto
crypto = record {
  Bytes = String;
  Secret = String;
  Signature = String;
  PublicBytes = String;
  PublicKey = String;
  utf8 = λ s. s;
  sha256_hex = λ s. "digest of " ^^ s;
  hex_encode = λ s. s;
  hex_decode = λ s. ok s;
  b64_encode = λ s. s;
  b64_decode = λ s. ok s;
  secret_of = λ s. some s;
  secret_bytes = λ s. s;
  public_of = λ s. some s;
  sign = λ k m. k ^^ m;
  verifying_key = λ k. k;
  signature_of = λ s. ok s;
  public_key = λ s. ok s;
  verify = λ k m s. str_eq (k ^^ m) s;
}

abbrev pub stamp : Stamp
stamp = record { id = "decision-1"; now = "2026-01-01T00:00:00Z" }

abbrev pub alice : Principal
alice = record { id = "user:alice"; roles = "ANALYST" ∷ []; groups = []; attrs = [] }

abbrev pub request : AuthzRequest
request = record {
  principal = alice;
  action = record { name = "read" };
  resource = record { kind = "REPORT"; id = some "report-1"; attrs = [] };
  subject = some (record { id = "user:bob"; kind = "Employee"; groups = []; attrs = [] });
  context = record { values = [] };
  relationships = record { kind = direct_reports; source = "user:alice"; target = "user:bob" } ∷ [];
  acting_as = none;
  on_behalf_of = none;
}

abbrev pub config : EvaluatorConfig kernel
config = record {
  policy_set = "READ";
  policy_revision = "r1";
  policy_signature = some "key-1";
  group_members = [];
}

-- The decision on the request: it is permitted.
abbrev pub decision : AuthzDecision
decision =
    decide kernel stamp request config (kernel.is_authorized ("user:alice", "READ") "READ" [])

pub evaluated : evaluate kernel stamp request config ≡ ok decision
unfolding evaluate prepare decide build_entities validate paac.Prelude.trim
    paac.Core.Entities.add_relationships paac.Core.Entities.add_groups
    paac.Core.Entities.principal_entity paac.Core.Entities.set_attr paac.Core.Entities.add_attrs
    paac.Prelude.lookup paac.Core.Entities.uid paac.Core.Entities.add_parents
    paac.Core.Entities.subject_entities paac.Core.Entities.resource_entity
    paac.Core.Entities.group_entities paac.Core.Entities.all_groups paac.Core.Evaluate.uid
    paac.Prelude.to_ascii_uppercase
evaluated = refl

-- The instance has the documented behaviour.
pub crypto_laws : CryptoLaws crypto
unfolding ◌^^◌
crypto_laws = record {
  b64_decode-b64_encode = λ b. refl;
  signature_form = λ k m. (k ^^ m, refl);
  key_form = λ k. (k, k, refl, refl);
  verifies = λ k m s pk vk formed taken parsed.
      let signature : k ^^ m ≡ s = ground arith in
      let bytes : k ≡ pk = ground arith in
      let key : pk ≡ vk = ground arith in rw (← signature, ← key, ← bytes) (eq_refl (k ^^ m));
}

abbrev pub native : Native
native = record {
  Float = ℕ;
  hundredths = λ n. n;
  show = λ n. "0.90";
  at_least = λ a b. leb b a;
  capture = λ pattern text. none;
}

abbrev pub catalog : ResourceCatalog
catalog = record {
  version = "1";
  resources =
      record {
        id = "db.hr.salaries";
        kind = "DB_TABLE";
        name = "salaries";
        department = some "HR";
        sensitivity = some "high";
        attrs = [];
      }
      ∷ [];
  tools =
      record {
        tool_name = "sql_query";
        action = "READ";
        resource_kind = "DB_TABLE";
        resource_id_arg = some "table";
        default_attrs = [];
        arg_mappings = [];
      }
      ∷ [];
}
