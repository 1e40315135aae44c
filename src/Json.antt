-- ===== src/Json.antt =====
-- `serde_json::Value`, which the program reads. An object is its fields in the order of iteration,
-- and a number is the text that it prints as.
use paac.Prelude.{String, Bool, Option, none, some, List, [], ◌∷◌, str_eq, if◌then◌else◌}

mutual
  pub data Json : Type 0 where
    null : Json
    boolean : Bool → Json
    number : String → Json
    text : String → Json
    array : Items → Json
    object : Fields → Json

  pub data Items : Type 0 where
    nil : Items
    cons : Json → Items → Items

  pub data Fields : Type 0 where
    end : Fields
    field : String → Json → Fields → Fields

abbrev pub items : Items → List Json
items nil = []
items (cons v vs) = v ∷ items vs

unfoldable pub lookup_field : String → Fields → Option Json
lookup_field k end = none
lookup_field k (field j v fs) = if str_eq j k then some v else lookup_field k fs

-- `get(key)` with a text: only an object has such parts.
unfoldable pub get : String → Json → Option Json
unfolding lookup_field
get k (object fs) = lookup_field k fs
get k null = none
get k (boolean b) = none
get k (number n) = none
get k (text s) = none
get k (array xs) = none

-- `as_str`
unfoldable pub as_str : Json → Option String
as_str (text s) = some s
as_str null = none
as_str (boolean b) = none
as_str (number n) = none
as_str (array xs) = none
as_str (object fs) = none

-- `as_array`
unfoldable pub as_array : Json → Option (List Json)
as_array (array xs) = some (items xs)
as_array null = none
as_array (boolean b) = none
as_array (number n) = none
as_array (text s) = none
as_array (object fs) = none

-- `Map::insert` and `Map::remove` of `serde_json` with its order of insertion: a new key goes to the
-- end, and the last field takes the place of a removed one.
unfoldable pub insert_field : String → Json → Fields → Fields
insert_field k v end = field k v end
insert_field k v (field j w fs) =
    if str_eq j k then field j v fs else field j w (insert_field k v fs)

-- The last field in front of what is left.
abbrev last_first : String → Json → Fields → Fields
last_first k v end = field k v end
last_first k v (field j w fs) = elim (last_first j w fs) [
  | end ↦ end
  | field l x gs ↦ field l x (field k v gs)
]

abbrev move_last : Fields → Fields
move_last end = end
move_last (field k v fs) = last_first k v fs

unfoldable pub remove_field : String → Fields → Fields
remove_field k end = end
remove_field k (field j v fs) = if str_eq j k then move_last fs else field j v (remove_field k fs)

abbrev pub to_items : List Json → Items
to_items [] = nil
to_items (v ∷ vs) = cons v (to_items vs)
