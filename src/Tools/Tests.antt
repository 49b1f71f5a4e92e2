-- ===== src/Tools/Tests.antt =====
-- Runs of the registry, the validator and the tools.
mod Kinds
use mathlib.Core.List.{Memᴰ}
use athena_ai.Prelude.{
  ◌-◌, ◌*◌, ◌/◌, ◌%◌, ◌^◌, nat_eq, ◌↔◌, ℕ, ◌+◌, Text, codes, ◌≡◌, ◌⊎◌, refl, true, Option, none,
  some, List, [], ◌∷◌, All, ◌==◌, string_eq,
}
use athena_ai.Prelude.Dict.{Dict}
use athena_ai.Prelude.Texts.{strip, text_eq}
use athena_ai.Core.Errors.{Error, Result, ok, err, athena, tool_denied}
use athena_ai.Core.Json.{Json, ℤ, pos, string, Fields, close, field}
use athena_ai.Tools.Registry.{Tool}
use athena_ai.Tools.Validator.{validate}
use athena_ai.Tools.Validator.Acceptance.{IsValidCall, validate-Decides}
use athena_ai.Tools.Calculator.{Arithmetic, Expr, number, bin_op, add, mult, eval_node}
use athena_ai.Tools.Calculator.Meaning.{Evaluates, eval_node-iff_Evaluates}
use athena_ai.Tools.Http
use athena_ai.Tools.Http.{Response, answered, host_or_empty}
use athena_ai.Tools.Http.Guard.{IsUnder, execute-guards}
use athena_ai.Tools.Sql
use athena_ai.Tools.Sql.{Database}
use athena_ai.Prelude.Texts.Words.{FirstWord}
use athena_ai.Tools.Sql.Bounds.{Executed, execute-bounds}

-- a tool that counts its runs and hands its argument back
abbrev echo : Tool Json ℕ
echo = record {
  name = "echo";
  description = codes "repeats";
  input_schema = record {
    properties =
        ("text", record { type_name = some "string"; description = codes "what to say" }) ∷ [];
    required = "text" ∷ [];
  };
  execute = λ j w. (ok j, w + 1);
}

abbrev greeting : Fields
greeting = field "text" (string "hello") close

validate-Decides_example :
    ((validate echo greeting ("echo" ∷ []) ≡ ok tt) × IsValidCall echo greeting ("echo" ∷ []))
    ⊎ ((validate echo greeting ("echo" ∷ []) ≡ err (athena tool_denied))
        × ¬ IsValidCall echo greeting ("echo" ∷ []))
validate-Decides_example = validate-Decides echo greeting ("echo" ∷ [])

-- every URL is taken for a bare host name
abbrev as_host : Text → Result (Option Text)
as_host url = ok (some url)

-- a server that counts its requests
abbrev server : Text → Dict Text → ℕ → Result Response × ℕ
server url headers w =
    (ok (record { status_code = 200; url = url; text = codes "fine"; headers = [] }), w + 1)

abbrev hosts : List Text
hosts = codes "example.com" ∷ []

execute-guards_example :
    (((d : Text) × Memᴰ d hosts × IsUnder d (host_or_empty (some (codes "notexample.com"))))
      × (Http.execute as_host server hosts (codes "notexample.com") [] 0
          ≡ answered (server (codes "notexample.com") [] 0)))
    ⊎ (All (λ d. ¬ IsUnder d (host_or_empty (some (codes "notexample.com")))) hosts
        × (Http.execute as_host server hosts (codes "notexample.com") [] 0
            ≡ (err (athena tool_denied), 0)))
execute-guards_example = execute-guards as_host server hosts (codes "notexample.com") [] 0 refl

-- rows are the text that was run; a limit is always read as 500
abbrev recorder : Database Text ℕ
recorder = record {
  upper = λ t. t;
  to_int = λ j. ok (pos 500);
  show = λ n. codes "100";
  fetch = λ q w. (ok (q ∷ []), w + 1);
}

execute-bounds_example :
    (word : Text) × FirstWord (strip (codes " SELECT 1")) word
    × Executed recorder 100 (codes " SELECT 1") none 0 word
execute-bounds_example = execute-bounds recorder 100 (codes " SELECT 1") none 0

-- whole numbers, with 0 below zero
abbrev naturals : Arithmetic ℕ
naturals = record {
  plus = λ a b. ok (a + b);
  minus = λ a b. ok (a - b);
  times = λ a b. ok (a * b);
  over = λ a b. ok (a / b);
  power = λ a b. ok (a ^ b);
  whole_over = λ a b. ok (a / b);
  remainder = λ a b. ok (a % b);
  opposite = λ a. ok 0;
  is_zero = λ a. a == 0;
}

-- 2 + 3 * 4
abbrev expression : Expr ℕ
expression = bin_op add (number 2) (bin_op mult (number 3) (number 4))

eval_node-iff_Evaluates_example :
    (eval_node naturals expression ≡ ok 14) ↔ Evaluates naturals expression 14
eval_node-iff_Evaluates_example = eval_node-iff_Evaluates naturals expression 14
