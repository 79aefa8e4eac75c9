-- ===== src/Identity/Json.antt =====
-- internal/xrpc/identity.go: the generic helpers on fields of a did:plc operation. A decoded JSON object
-- is its fields, each key once.
use robby.Prelude.{String, Option, none, some, List, [], ◌∷◌, ◌==◌, string_eq, if◌then◌else◌}

mutual
  -- `scalar` is a number or a Boolean, as its text.
  pub data Json : Type 0 where
    null : Json
    text scalar : String → Json
    array : Items → Json
    object : Fields → Json

  pub data Items : Type 0 where
    no_item : Items
    item : Json → Items → Items

  pub data Fields : Type 0 where
    no_field : Fields
    field : String → Json → Fields → Fields

-- `m[key]` with its `ok`.
unfoldable pub lookup : String → Fields → Option Json
lookup key no_field = none
lookup key (field k v fs) = if k == key then some v else lookup key fs

-- `m[key]`; a missing key is nil.
abbrev pub value_or_nil : Option Json → Json
value_or_nil none = null
value_or_nil (some v) = v

unfoldable pub string_items : Items → List String
string_items no_item = []
string_items (item (text s) rest) = s ∷ string_items rest
string_items (item null rest) = string_items rest
string_items (item (scalar s) rest) = string_items rest
string_items (item (array xs) rest) = string_items rest
string_items (item (object fs) rest) = string_items rest

-- Anything but an array has no strings.
unfoldable pub to_string_slice : Json → List String
to_string_slice (array xs) = string_items xs
to_string_slice null = []
to_string_slice (text s) = []
to_string_slice (scalar s) = []
to_string_slice (object fs) = []

unfoldable pub to_map : Json → Fields
to_map (object fs) = fs
to_map null = no_field
to_map (text s) = no_field
to_map (scalar s) = no_field
to_map (array xs) = no_field

abbrev pub or_else : Option Json → Json → Json
or_else none fallback = fallback
or_else (some v) fallback = v

unfoldable pub pick_string_slice : Fields → String → Json → List String
pick_string_slice input key fallback = to_string_slice (or_else (lookup key input) fallback)

unfoldable pub pick_map : Fields → String → Json → Fields
pick_map input key fallback = to_map (or_else (lookup key input) fallback)

-- `[]string` as a JSON array.
unfoldable pub texts : List String → Items
texts [] = no_item
texts (s ∷ rest) = item (text s) (texts rest)

unfoldable pub with_field : Fields → String → Json → Fields
with_field no_field key v = field key v no_field
with_field (field k w fs) key v = field k w (with_field fs key v)
