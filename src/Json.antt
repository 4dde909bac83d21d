-- ===== src/Json.antt =====
-- The JSON-like payloads that clients send: values of Python's `dict[str, object]`. A `Payload` is
-- the dictionary itself, and `Value.obj` a dictionary inside one.
use nautilus_builder.Prelude.{
  Bool, true, false, not, ◌||◌, Option, none, some, List, [], ◌∷◌, String, ◌==◌, string_eq,
}
use nautilus_builder.Prelude.Text.{lower_in}
use nautilus_builder.Prelude.Dict.{Dict, get, put}

mutual
  pub data Value : Type 0 where
    null : Value
    bool : Bool → Value
    number : String → Value
    text : String → Value
    arr : Items → Value
    obj : Fields → Value

  pub data Items : Type 0 where
    no_items : Items
    item : Value → Items → Items

  pub data Fields : Type 0 where
    no_fields : Fields
    member : String → Value → Fields → Fields

abbrev pub Payload : Type 0
Payload = Dict String Value

-- Python's truth of a value.
unfoldable pub is_true : Value → Bool
is_true null = false
is_true (bool b) = b
is_true (number n) = not (n == "0" || n == "0.0" || n == "-0.0")
is_true (text s) = not (s == "")
is_true (arr no_items) = false
is_true (arr (item _ _)) = true
is_true (obj no_fields) = false
is_true (obj (member _ _ _)) = true

-- `d.setdefault(k, v)`
unfoldable pub set_default : String → Value → Payload → Payload
set_default k v d = elim (get k d) [ none ↦ put k v d | some _ ↦ d ]

-- A `str | None` as a payload's value.
unfoldable pub optional : Option String → Value
optional none = null
optional (some s) = text s

-- `_assert_no_forbidden_keys` of execution_lane/models.py: true where it raises.
unfoldable mutual
  unfolding lower_in

  pub has_forbidden_key : List String → Value → Bool
  has_forbidden_key forbidden null = false
  has_forbidden_key forbidden (bool _) = false
  has_forbidden_key forbidden (number _) = false
  has_forbidden_key forbidden (text _) = false
  has_forbidden_key forbidden (arr items) = items_forbidden forbidden items
  has_forbidden_key forbidden (obj fields) = fields_forbidden forbidden fields

  pub items_forbidden : List String → Items → Bool
  items_forbidden forbidden no_items = false
  items_forbidden forbidden (item v items) =
      has_forbidden_key forbidden v || items_forbidden forbidden items

  pub fields_forbidden : List String → Fields → Bool
  fields_forbidden forbidden no_fields = false
  fields_forbidden forbidden (member key v fields) =
      lower_in key forbidden || has_forbidden_key forbidden v || fields_forbidden forbidden fields

-- The same at the dictionary that a caller passes.
unfoldable pub payload_forbidden : List String → Payload → Bool
unfolding has_forbidden_key lower_in
payload_forbidden forbidden [] = false
payload_forbidden forbidden ((key, v) ∷ d) =
    lower_in key forbidden || has_forbidden_key forbidden v || payload_forbidden forbidden d
