-- ===== src/Proxy/Openai.antt =====
-- crates/authz-llm-proxy/src/openai.rs: the requests of the clients.
use Prim.Native.Nat.{ℕ}
use paac.Prelude.{
  String, ◌^^◌, Bool, ◌≡◌, refl, Option, none, some, List, [], ◌∷◌, ◌++◌, All, is_empty, str_eq,
  false, true, if◌then◌else◌,
}
use paac.Json.{Json, text, array, items, get, as_str}

pub record ToolFunction : Type 0 where
  pub name : String
  pub arguments : String

pub record ToolCallMsg : Type 0 where
  pub id : String
  pub type_name : String
  pub function : ToolFunction

pub record ChatMessage : Type 0 where
  pub role : String
  pub content : Option Json
  pub tool_calls : Option (List ToolCallMsg)
  pub name : Option String
  pub tool_call_id : Option String

pub record ChatCompletionRequest : Type 0 where
  pub model : String
  pub messages : List ChatMessage
  pub stream : Option Bool
  pub tools : Option (List Json)

pub record RetrieveRequest : Type 0 where
  pub collection : String
  pub document_id : Option String
  pub query : Option String
  pub top_k : Option ℕ

-- the text of one part, or nothing
unfoldable pub part_text : Json → String
part_text part = elim (get "text" part) [
  | none ↦ ""
  | some v ↦ elim (as_str v) [ none ↦ "" | some s ↦ s ]
]

-- the loop over the parts
unfoldable pub parts_text : List Json → String
unfolding part_text
parts_text [] = ""
parts_text (p ∷ ps) = part_text p ^^ parts_text ps

unfoldable pub content_text : Option Json → Option String
unfolding parts_text
content_text (some (text s)) = some s
content_text (some (array xs)) =
    let t = parts_text (items xs) in if is_empty t then none else some t
content_text _ = none

-- The search from the end: a message counts if no later one is a user's.
unfoldable pub last_user : List ChatMessage → Option ChatMessage
last_user [] = none
last_user (m ∷ ms) = elim (last_user ms) [
  | some later ↦ some later
  | none ↦ if str_eq m.role "user" then some m else none
]

unfoldable pub last_user_text : List ChatMessage → Option String
unfolding last_user content_text
last_user_text messages = elim (last_user messages) [
  | none ↦ none
  | some m ↦ content_text m.content
]

abbrev pub NotUser : ChatMessage → Type 0
NotUser m = str_eq m.role "user" ≡ false

last_user-none : (ms : List ChatMessage) → All NotUser ms → last_user ms ≡ none
unfolding last_user
last_user-none [] h = refl
last_user-none (m ∷ ms) h = rw (last_user-none ms h.1, h.0) refl

last_user-append :
    (before : List ChatMessage) (m : ChatMessage) (ms : List ChatMessage)
    → last_user ms ≡ some m
    → last_user (before ++ ms) ≡ some m
unfolding last_user
last_user-append [] m ms h = h
last_user-append (b ∷ before) m ms h = rw (last_user-append before m ms h) refl

-- The text of a conversation is that of its last user message, whatever comes before it and
-- whoever else speaks after it.
pub last_user_text_lem :
    (before after : List ChatMessage) (m : ChatMessage)
    → str_eq m.role "user" ≡ true
    → All NotUser after
    → last_user_text (before ++ m ∷ after) ≡ content_text m.content
unfolding last_user_text last_user
last_user_text_lem before after m user h =
    let here : last_user (m ∷ after) ≡ some m = rw (last_user-none after h, user) refl in
    rw (last_user_text, last_user-append before m (m ∷ after) here) refl
