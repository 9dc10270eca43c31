-- ===== src/Json.antt =====
-- Decoded JSON values: Go's `interface{}` as encoding/json fills it.
use go_autorest.Prelude.{String, Bool, str_eq, if◌then◌else◌, true, false}

-- `null` is also the nil interface: a missing key of a map reads as it. A number keeps its text.
mutual
  pub data Json : Type 0 where
    null : Json
    bool : Bool → Json
    num : String → Json
    str : String → Json
    arr : Items → Json
    obj : Fields → Json

  pub data Items : Type 0 where
    nil : Items
    cons : Json → Items → Items

  -- `map[string]interface{}`, its keys distinct. A nil map reads as the empty one.
  pub data Fields : Type 0 where
    end : Fields
    field : String → Json → Fields → Fields

-- `m[key]`
unfoldable pub get_field : String → Fields → Json
get_field key end = null
get_field key (field k v fs) = if str_eq k key then v else get_field key fs

-- `len(m) == 0`
abbrev pub has_no_fields : Fields → Bool
has_no_fields end = true
has_no_fields (field k v fs) = false

abbrev pub is_null : Json → Bool
is_null null = true
is_null _ = false
