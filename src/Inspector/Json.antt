-- ===== src/Inspector/Json.antt =====
-- Values that Go's `encoding/json` decodes into `interface{}`, as pkg/captureattach reads them. A number is
-- the integer that `int64` makes of it, since the code reads no other part of it.
use bug_it.Base.{ℤ, Bool, [], Option, none, some, if◌then◌else◌}
use bug_it.Text.{Bytes, bytes_eq}

-- `map[string]interface{}` is `Fields`, with each key once.
mutual
  pub data Json : Type 0 where
    null : Json
    boolean : Bool → Json
    number : ℤ → Json
    text : Bytes → Json
    array : Items → Json
    object : Fields → Json

  pub data Items : Type 0 where
    no_items : Items
    item : Json → Items → Items

  pub data Fields : Type 0 where
    no_fields : Fields
    field : Bytes → Json → Fields → Fields

-- `m[key]`, which a nil map answers with nothing.
unfoldable pub lookup : Fields → Bytes → Option Json
lookup no_fields key = none
lookup (field k v rest) key =
    let found = lookup rest key in if bytes_eq k key then some v else found

-- The type assertions `v.(string)`, `v.(bool)`, `v.(float64)` and `v.(map[string]interface{})`.
abbrev to_text : Option Json → Option Bytes
to_text (some (text s)) = some s
to_text _ = none

abbrev to_bool : Option Json → Option Bool
to_bool (some (boolean b)) = some b
to_bool _ = none

abbrev to_number : Option Json → Option ℤ
to_number (some (number n)) = some n
to_number _ = none

abbrev to_object : Option Json → Option Fields
to_object (some (object m)) = some m
to_object _ = none

unfoldable pub get_text : Fields → Bytes → Option Bytes
get_text m key = to_text (lookup m key)

unfoldable pub get_bool : Fields → Bytes → Option Bool
get_bool m key = to_bool (lookup m key)

unfoldable pub get_number : Fields → Bytes → Option ℤ
get_number m key = to_number (lookup m key)

unfoldable pub get_object : Fields → Bytes → Option Fields
get_object m key = to_object (lookup m key)

-- `v, _ := m[key].(string)` and `v, _ := m[key].(map[string]interface{})`
abbrev or_text : Option Bytes → Bytes
or_text none = []
or_text (some s) = s

abbrev or_object : Option Fields → Fields
or_object none = no_fields
or_object (some m) = m

unfoldable pub text_or_empty : Fields → Bytes → Bytes
text_or_empty m key = or_text (get_text m key)

unfoldable pub object_or_empty : Fields → Bytes → Fields
object_or_empty m key = or_object (get_object m key)
