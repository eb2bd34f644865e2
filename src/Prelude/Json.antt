-- ===== src/Prelude/Json.antt =====
-- `serde_json::Value`: an object is its fields, each key once.
use Prim.Native.String.{String}
use mathlib.Core.Bool.{Bool}
use mathlib.Core.Option.{Option, none, some}
use text.Mathlib.Text.{◌==◌}
use package.nomad_scale_to_zero.Prelude.Tests.{if◌then◌else◌}

-- A number is its text.
mutual
  pub data Value : Type 0 where
    null : Value
    boolean : Bool → Value
    number string : String → Value
    array : Values → Value
    object : Fields → Value

  pub data Values : Type 0 where
    end : Values
    item : Value → Values → Values

  pub data Fields : Type 0 where
    empty : Fields
    field : String → Value → Fields → Fields

abbrev pub get_field : String → Fields → Option Value
get_field key empty = none
get_field key (field k v rest) = let more = get_field key rest in if k == key then some v else more

-- `value.get(key)`: nothing where the value is not an object.
unfoldable pub get : String → Value → Option Value
get key (object fs) = get_field key fs
get key _ = none

unfoldable pub as_str : Value → Option String
as_str (string s) = some s
as_str _ = none

-- `value.get(key).and_then(|v| v.as_str())`
unfoldable pub get_str : String → Value → Option String
unfolding get as_str
get_str key v = elim (get key v) [ none ↦ none | some u ↦ as_str u ]

-- The field of an object replaced in place, or added as the last one.
abbrev pub set_field : String → Value → Fields → Fields
set_field key v empty = field key v empty
set_field key v (field k u rest) =
    let more = set_field key v rest in if k == key then field k v rest else field k u more

-- `as_object`, `as_array`
abbrev pub as_object : Value → Option Fields
as_object (object fs) = some fs
as_object _ = none

abbrev pub as_array : Value → Option Values
as_array (array vs) = some vs
as_array _ = none

-- `object.get(key).and_then(Value::as_array)`
abbrev pub field_array : String → Fields → Option Values
field_array key fs = elim (get_field key fs) [ none ↦ none | some v ↦ as_array v ]

-- `object.get(key).and_then(Value::as_str)`
abbrev pub field_str : String → Fields → Option String
unfolding as_str
field_str key fs = elim (get_field key fs) [ none ↦ none | some v ↦ as_str v ]

-- `entry(key).or_insert_with(|| value)`
abbrev pub or_insert : String → Value → Fields → Fields
or_insert key v fs = elim (get_field key fs) [ none ↦ set_field key v fs | some _ ↦ fs ]
