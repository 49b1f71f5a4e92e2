-- ===== src/Agents/Protocol.antt =====
-- The text protocol of src/athenai/agents/executor.py: how tools are described to the model, and how
-- its calls are read.
use athena_ai.Prelude.{
  ◌≡◌, refl, inl, inr, Text, codes, true, ◌&&◌, none, some, List, [], ◌∷◌, ◌++◌, if◌then◌else◌,
  arith, All, All-append, Option-cases,
}
use athena_ai.Prelude.Dict.{Dict}
use athena_ai.Prelude.Texts.{strip, splitlines, after_prefix}
use athena_ai.Core.Json.{null, boolean, integer, float, string, array, object, Fields, has}
use athena_ai.Models.Base.{ModelResponse}
use athena_ai.Core.Errors.{Error, Result, ok, err, ◌>>=◌}
use athena_ai.Agents.Trace.{Output, Host, Loaded, decoded, not_json, fails}
use athena_ai.Tools.Registry.{Tool, ToolSchema, get_schemas}

-- the `try` of `_parse_tool_calls`, which catches only JSONDecodeError; the test is
-- `isinstance(call, dict) and "name" in call and "arguments" in call`
call_in : Loaded → Result (List Fields)
call_in (decoded (object fs)) = ok (if has "name" fs && has "arguments" fs then fs ∷ [] else [])
call_in (fails e) = err e
call_in _ = ok []

-- `_build_system_prompt`
prompt_for : Text → List ToolSchema → Text
prompt_for tools_json [] = codes "You are a helpful AI assistant."
prompt_for tools_json (s ∷ ss) =
    codes "You are a helpful AI assistant with access to the following tools:\n\n"
    ++ tools_json
    ++ codes "\n\nTo use a tool, include EXACTLY this format (one tool call per line):\n"
    ++ codes "TOOL_CALL: {\"name\": \"tool_name\", \"arguments\": {...}}\n\n"
    ++ codes "When you have computed the final answer, respond with plain text only "
    ++ codes "(no TOOL_CALL prefix). Execute multiple tools on separate lines when needed."

-- the calls that are read all have a name, and nothing is raised
abbrev pub AreNamed : Result (List Fields) → Type 0
AreNamed r = (calls : List Fields) × (r ≡ ok calls) × All (λ c. has "name" c ≡ true) calls

call_in-AreNamed : (l : Loaded) → ((e : Error) → l ≡ fails e → ⊥) → AreNamed (call_in l)
unfolding call_in
call_in-AreNamed (decoded (object fs)) h = (_, refl, ground arith)
call_in-AreNamed (decoded null) h = ([], refl, tt)
call_in-AreNamed (decoded (boolean b)) h = ([], refl, tt)
call_in-AreNamed (decoded (integer n)) h = ([], refl, tt)
call_in-AreNamed (decoded (float f)) h = ([], refl, tt)
call_in-AreNamed (decoded (string s)) h = ([], refl, tt)
call_in-AreNamed (decoded (array xs)) h = ([], refl, tt)
call_in-AreNamed not_json h = ([], refl, tt)
call_in-AreNamed (fails e) h = absurd (h e refl)

module _ {V W : Type 0} (host : Host V W) where
  -- one round of the loop in `_parse_tool_calls`
  unfoldable pub calls_in_line : Text → Result (List Fields)
  unfolding call_in
  calls_in_line line = elim (after_prefix (codes "TOOL_CALL:") (strip line)) [
    | none ↦ ok []
    | some rest ↦ call_in (host.loads (strip rest))
  ]

  calls_in_lines : List Text → Result (List Fields)
  unfolding calls_in_line
  calls_in_lines [] = ok []
  calls_in_lines (l ∷ ls) = do calls ← calls_in_line l; rest ← calls_in_lines ls; ok (calls ++ rest)

  unfoldable pub parse_tool_calls : Text → Result (List Fields)
  unfolding calls_in_lines
  parse_tool_calls content = calls_in_lines (splitlines content)

  -- the structured calls if there are any, else those in the text
  unfoldable pub tool_calls_of : ModelResponse → Result (List Fields)
  tool_calls_of response = elim response.structured_calls [
    | [] ↦ parse_tool_calls response.content
    | c ∷ cs ↦ ok (c ∷ cs)
  ]

  unfoldable pub build_system_prompt : Dict (Tool (Output V) W) → Text
  unfolding prompt_for
  build_system_prompt tools =
      let schemas = get_schemas tools in prompt_for (host.dumps_schemas schemas) schemas

  module _ (reads : (t : Text) (e : Error) → host.loads t ≡ fails e → ⊥) where
    calls_in_line-AreNamed : (l : Text) → AreNamed (calls_in_line l)
    unfolding calls_in_line
    calls_in_line-AreNamed l = elim (Option-cases (after_prefix (codes "TOOL_CALL:") (strip l))) [
      | inl e ↦ rw (e, calls_in_line) ([], refl, tt)
      | inr (t, e) ↦
          rw (e, calls_in_line) (call_in-AreNamed (host.loads (strip t)) (reads (strip t)))
    ]

    calls_in_lines-AreNamed : (ls : List Text) → AreNamed (calls_in_lines ls)
    unfolding calls_in_lines
    calls_in_lines-AreNamed [] = ([], refl, tt)
    calls_in_lines-AreNamed (l ∷ ls) =
        let (calls, e, h) = calls_in_line-AreNamed l in
        let (rest, e', h') = calls_in_lines-AreNamed ls in
        (calls ++ rest, rw (e, e') refl, All-append _ calls rest h h')

    -- where the structured calls have a name, so do those that are made
    pub tool_calls_of-AreNamed :
        (r : ModelResponse)
        → All (λ c. has "name" c ≡ true) r.structured_calls
        → AreNamed (tool_calls_of r)
    unfolding tool_calls_of parse_tool_calls
    tool_calls_of-AreNamed r h = of_calls r.structured_calls refl h
      where
        of_calls :
            (cs : List Fields)
            → r.structured_calls ≡ cs
            → All (λ c. has "name" c ≡ true) cs
            → AreNamed (tool_calls_of r)
        of_calls [] e k = rw (e, tool_calls_of) (calls_in_lines-AreNamed (splitlines r.content))
        of_calls (c ∷ cs) e k = rw (e, tool_calls_of) (c ∷ cs, refl, k)
