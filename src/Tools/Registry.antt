-- ===== src/Tools/Registry.antt =====
-- src/athenai/tools/registry.py, over core/protocols.py's `Tool`. A tool acts on a world `W` and
-- returns a value of `V`.
use athena_ai.Prelude.{
  ◌≡◌, String, Text, codes, Bool, true, false, ◌&&◌, ◌||◌, Option, none, some, List, [], ◌∷◌, ltb,
  ◌==◌, nat_eq, string_eq, arith, if◌then◌else◌,
}
use athena_ai.Prelude.Dict.{Dict, lookup, insert, keys, values, lookup-insert}
use athena_ai.Prelude.Sorting.{sorted_desc}
use athena_ai.Core.Errors.{Result, ok, err, key_error}
use athena_ai.Core.Json.{Json}

-- one entry of "properties" in a JSON schema
pub record Property : Type 0 where
  pub type_name : Option String
  pub description : Text

-- the parts of a JSON schema that the code reads
pub record Schema : Type 0 where
  pub properties : Dict Property
  pub required : List String

pub record Tool (V W : Type 0) : Type 0 where
  pub name : String
  pub description : Text
  pub input_schema : Schema
  pub execute : Json → W → Result V × W

-- the contract that is sent to the model
pub record ToolSchema : Type 0 where
  pub name : String
  pub description : Text
  pub input_schema : Schema

-- `a <= b` on texts, by code points
text_le : Text → Text → Bool
text_le [] t = true
text_le (a ∷ s) [] = false
text_le (a ∷ s) (b ∷ t) = ltb a b || (a == b && text_le s t)

module _ {V W : Type 0} where
  unfoldable pub register : Tool V W → Dict (Tool V W) → Dict (Tool V W)
  register tool tools = insert tool.name tool tools

  unfoldable pub get : String → Dict (Tool V W) → Result (Tool V W)
  get name tools = elim (lookup name tools) [ none ↦ err key_error | some t ↦ ok t ]

  unfoldable pub list_tools : Dict (Tool V W) → List String
  unfolding text_le
  list_tools tools = sorted_desc (λ a b. text_le (codes b) (codes a)) (λ n. n) (keys tools)

  schemas_of : List (Tool V W) → List ToolSchema
  schemas_of [] = []
  schemas_of (t ∷ ts) =
      record { name = t.name; description = t.description; input_schema = t.input_schema }
      ∷ schemas_of ts

  unfoldable pub get_schemas : Dict (Tool V W) → List ToolSchema
  unfolding schemas_of
  get_schemas tools = schemas_of (values tools)

  -- After a registration the tool's name gives that tool and every other name what it gave before;
  -- KeyError stands for a name that was never registered.
  pub get-register :
      (t : Tool V W) (name : String) (tools : Dict (Tool V W))
      → get name (register t tools) ≡ (if t.name == name then ok t else get name tools)
  unfolding get register
  get-register t name tools = ground (arith, lookup-insert t.name name t tools)
