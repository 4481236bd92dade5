-- ===== src/Common/Json.antt =====
-- JSON values, as `JSON.parse` gives them, and the tests that the guards make of them.
use nettprogg_vsc.Common.{String, Bool, true, false, not, if◌then◌else◌, str_eq, ◌==◌}
use nettprogg_vsc.Common.Int.{ℤ, pos}

-- A number is an integer or not. `undefined` is what a missing field reads as.
mutual
  pub data Json : Type 0 where
    undefined : Json
    null : Json
    boolean : Bool → Json
    integer : ℤ → Json
    fraction : String → Json
    text : String → Json
    array : Items → Json
    object : Fields → Json

  pub data Items : Type 0 where
    none_left : Items
    item : Json → Items → Items

  pub data Fields : Type 0 where
    no_field : Fields
    field : String → Json → Fields → Fields

abbrev pub get_field : String → Fields → Json
get_field name no_field = undefined
get_field name (field n value rest) = if str_eq n name then value else get_field name rest

-- `candidate.name`
abbrev pub get : String → Json → Json
get name (object fields) = get_field name fields
get name _ = undefined

-- `value && typeof value === "object"`
abbrev pub is_object : Json → Bool
is_object (object fields) = true
is_object (array items) = true
is_object _ = false

-- `typeof value === "string"`
abbrev pub is_string : Json → Bool
is_string (text s) = true
is_string _ = false

-- `value === s`
abbrev pub is_text : String → Json → Bool
is_text s (text t) = str_eq t s
is_text s _ = false

-- `Number.isInteger(value)`
abbrev pub is_integer : Json → Bool
is_integer (integer n) = true
is_integer _ = false

-- `Boolean(value)`
abbrev pub is_truthy : Json → Bool
is_truthy undefined = false
is_truthy null = false
is_truthy (boolean b) = b
is_truthy (integer (pos n)) = not (n == 0)
is_truthy (text s) = not (str_eq s "")
is_truthy _ = true

-- `Array.isArray(value)`
abbrev pub is_array : Json → Bool
is_array (array items) = true
is_array _ = false

abbrev has_field : String → Fields → Bool
has_field name no_field = false
has_field name (field n value rest) = if str_eq n name then true else has_field name rest

-- `name in value`, of an object
abbrev pub has_key : String → Json → Bool
has_key name (object fields) = has_field name fields
has_key name _ = false
