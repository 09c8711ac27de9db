-- ===== src/Socket/Json.antt =====
-- The values of serde_json that crates/forgetty-socket reads and writes, with its accessors. A number
-- is an unsigned 64-bit integer, or another one of which only the `f32` that it is cast to is read.
use text.Mathlib.Text.{◌==◌ as str_eq}
use forgetty.Base.{ℕ, String, List, [], ◌∷◌, Bool, Option, none, some, if◌then◌else◌}

mutual
  pub data Value : Type 0 where
    null : Value
    boolean : Bool → Value
    integer : ℕ → Value
    other_number : ℕ → Value
    string : String → Value
    array : Elements → Value
    object : Fields → Value

  pub data Elements : Type 0 where
    end : Elements
    element : Value → Elements → Elements

  pub data Fields : Type 0 where
    closed : Fields
    field : String → Value → Fields → Fields

lookup_field : String → Fields → Option Value
lookup_field key closed = none
lookup_field key (field name value rest) =
    if str_eq name key then some value else lookup_field key rest

-- `Value::get`
unfoldable pub get : String → Value → Option Value
unfolding lookup_field
get key (object fields) = lookup_field key fields
get key null = none
get key (boolean b) = none
get key (integer n) = none
get key (other_number x) = none
get key (string s) = none
get key (array values) = none

unfoldable pub as_str : Value → Option String
as_str (string s) = some s
as_str null = none
as_str (boolean b) = none
as_str (integer n) = none
as_str (other_number x) = none
as_str (array values) = none
as_str (object fields) = none

unfoldable pub as_u64 : Value → Option ℕ
as_u64 (integer n) = some n
as_u64 null = none
as_u64 (boolean b) = none
as_u64 (other_number x) = none
as_u64 (string s) = none
as_u64 (array values) = none
as_u64 (object fields) = none

unfoldable pub as_bool : Value → Option Bool
as_bool (boolean b) = some b
as_bool null = none
as_bool (integer n) = none
as_bool (other_number x) = none
as_bool (string s) = none
as_bool (array values) = none
as_bool (object fields) = none

elements : Elements → List Value
elements end = []
elements (element value rest) = value ∷ elements rest

unfoldable pub as_array : Value → Option (List Value)
unfolding elements
as_array (array values) = some (elements values)
as_array null = none
as_array (boolean b) = none
as_array (integer n) = none
as_array (other_number x) = none
as_array (string s) = none
as_array (object fields) = none

-- `as_f64` and the cast to `f32`; `of_integer` is the cast of an integer.
unfoldable pub as_f32 : (ℕ → ℕ) → Value → Option ℕ
as_f32 of_integer (integer n) = some (of_integer n)
as_f32 of_integer (other_number x) = some x
as_f32 of_integer null = none
as_f32 of_integer (boolean b) = none
as_f32 of_integer (string s) = none
as_f32 of_integer (array values) = none
as_f32 of_integer (object fields) = none

to_fields : List (String × Value) → Fields
to_fields [] = closed
to_fields ((key, value) ∷ rest) = field key value (to_fields rest)

to_elements : List Value → Elements
to_elements [] = end
to_elements (value ∷ rest) = element value (to_elements rest)

-- `json!({ … })`
unfoldable pub json_object : List (String × Value) → Value
unfolding to_fields
json_object fields = object (to_fields fields)

-- `json!([ … ])`
unfoldable pub json_array : List Value → Value
unfolding to_elements
json_array values = array (to_elements values)

-- `Option<T>` as a value.
abbrev pub or_null {ℓ} : {A : Type ℓ} → (A → Value) → Option A → Value
or_null f none = null
or_null f (some a) = f a
