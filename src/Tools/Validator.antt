-- ===== src/Tools/Validator.antt =====
-- src/athenai/tools/validator.py
pub mod Acceptance
use athena_ai.Prelude.{
  String, Bool, true, false, not, ◌&&◌, ◌||◌, Option, none, some, List, [], ◌∷◌, ◌==◌, string_eq,
  if◌then◌else◌,
}
use athena_ai.Prelude.Dict.{Dict, lookup}
use athena_ai.Core.Errors.{Result, ok, err, ◌>>=◌, ◌>>◌, athena, tool_denied}
use athena_ai.Core.Json.{
  Json, null, boolean, integer, float, string, array, object, Items, Fields, close, field, has,
}
use athena_ai.Tools.Registry.{Property, Schema, Tool}

-- the keys of `_TYPE_MAP`
pub data JsonType : Type 0 where
  a_string a_number an_integer a_boolean an_array an_object : JsonType

-- `_TYPE_MAP`
unfoldable pub type_map : Dict JsonType
type_map =
    ("string", a_string)
    ∷ ("number", a_number)
    ∷ ("integer", an_integer)
    ∷ ("boolean", a_boolean)
    ∷ ("array", an_array)
    ∷ ("object", an_object)
    ∷ []

-- `isinstance(value, expected)`: in Python a bool is an int
unfoldable pub is_instance : JsonType → Json → Bool
is_instance a_string (string s) = true
is_instance a_number (integer n) = true
is_instance a_number (float f) = true
is_instance a_number (boolean b) = true
is_instance an_integer (integer n) = true
is_instance an_integer (boolean b) = true
is_instance a_boolean (boolean b) = true
is_instance an_array (array xs) = true
is_instance an_object (object fs) = true
is_instance _ _ = false

unfoldable pub check_required : List String → Fields → Result (Unit {0})
check_required [] arguments = ok tt
check_required (name ∷ names) arguments =
    if has name arguments then check_required names arguments else err (athena tool_denied)

-- the body of the second loop, on one argument
unfoldable pub is_acceptable : Dict Property → String → Json → Bool
unfolding type_map is_instance
is_acceptable props key value = elim (lookup key props) [
  | none ↦ true
  | some p ↦ elim p.type_name [
    | none ↦ true
    | some type_name ↦ elim (lookup type_name type_map) [
      | none ↦ true
      | some expected ↦ is_instance expected value
    ]
  ]
]

unfoldable pub check_types : Dict Property → Fields → Result (Unit {0})
check_types props close = ok tt
check_types props (field key value rest) =
    if is_acceptable props key value then check_types props rest else err (athena tool_denied)

unfoldable pub validate_schema : Schema → Fields → Result (Unit {0})
unfolding check_required check_types
validate_schema s arguments = do
  check_required s.required arguments
  check_types s.properties arguments

-- `tool.name in allowed_tools`
unfoldable pub is_allowed : String → List String → Bool
is_allowed name [] = false
is_allowed name (n ∷ ns) = n == name || is_allowed name ns

unfoldable pub validate_permission : {V W : Type 0} → Tool V W → List String → Result (Unit {0})
validate_permission tool allowed =
    if is_allowed tool.name allowed then ok tt else err (athena tool_denied)

unfoldable pub validate : {V W : Type 0} → Tool V W → Fields → List String → Result (Unit {0})
unfolding validate_schema validate_permission
validate tool arguments allowed = do
  validate_schema tool.input_schema arguments
  validate_permission tool allowed
