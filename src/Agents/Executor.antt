-- ===== src/Agents/Executor.antt =====
-- src/athenai/agents/executor.py and the facade agent.py. The model, `json` and the tools act on a
-- world `W`; the tools of one turn are run in the order of the calls, their interleaving being the
-- world's.
pub mod Answers
pub mod Endings
pub mod Outcome
pub mod Total
use athena_ai.Prelude.{
  ℕ, zero, suc, ◌+◌, String, Text, codes, Bool, true, false, ◌&&◌, Option, none, some, List, [],
  ◌∷◌, ◌++◌, if◌then◌else◌,
}
use athena_ai.Prelude.Dict.{Dict}
use athena_ai.Prelude.Texts.{strip, splitlines, after_prefix}
use athena_ai.Core.Errors.{Error, Result, ok, err, ◌>>=◌, key_error, type_error}
use athena_ai.Core.Json.{
  Json, null, boolean, integer, float, string, array, object, Fields, close, field, find, has,
}
use athena_ai.Models.Base.{ChatMessage, ModelRequest, ModelResponse, request_with}
use athena_ai.Agents.State.{
  AgentStatus, created, running, awaiting_tool, completed, failed, transition,
}
use athena_ai.Agents.Trace.{
  Output, plain, value, ToolOutcome, returned, raised, AgentStep, AgentResult, Progress, Turn,
  again, answered, Host,
}
use athena_ai.Tools.Registry.{Tool, get}
use athena_ai.Agents.Protocol.{tool_calls_of, build_system_prompt}

-- `tool_call[key]`
abbrev pub entry : String → Fields → Result Json
entry key call = elim (find key call) [ none ↦ err key_error | some j ↦ ok j ]

module _ {V : Type 0} where
  abbrev pub outcome_of : Json → Result (Output V) → ToolOutcome V
  outcome_of name (err e) = raised name e
  outcome_of name (ok o) = returned name o

  -- the `if not tool_calls:` branch
  unfoldable pub finish : Progress V → ModelResponse → Result (AgentResult V)
  finish p response = do
    status ← transition p.status completed
    let step : AgentStep V = record {
      iteration = p.iteration;
      model_response = response.content;
      tool_calls = [];
      tool_results = [];
    }
    ok (record {
      final_answer = response.content;
      steps = p.steps ++ step ∷ [];
      total_iterations = p.iteration + 1;
      status = status;
    })

  abbrev pub as_again : Result (Progress V) → Result (Turn V)
  as_again (ok p) = ok (again p)
  as_again (err e) = err e

  abbrev pub as_answered : Result (AgentResult V) → Result (Turn V)
  as_answered (ok r) = ok (answered r)
  as_answered (err e) = err e

  -- `steps[-1].model_response if steps else "max iterations reached"`
  abbrev pub last_response : List (AgentStep V) → Text
  last_response [] = codes "max iterations reached"
  last_response (s ∷ []) = s.model_response
  last_response (s ∷ t ∷ ss) = last_response (t ∷ ss)

  -- after the loop
  unfoldable pub give_up : ℕ → Progress V → Result (AgentResult V)
  give_up max_iterations p = do
    status ← transition p.status failed
    ok (record {
      final_answer = last_response p.steps;
      steps = p.steps;
      total_iterations = max_iterations;
      status = status;
    })

  abbrev pub at_start : Text → AgentStatus → Progress V
  at_start task status = record {
    status = status;
    iteration = 0;
    steps = [];
    messages = record { role = "user"; content = task; name = none } ∷ [];
  }

module _ {V W : Type 0} (host : Host V W) where
  -- `self._registry.get(name)`: only a `str` can be a registered name
  unfoldable pub tool_named : Dict (Tool (Output V) W) → Json → Result (Tool (Output V) W)
  tool_named tools (string name) = get name tools
  tool_named tools (array _) = err type_error
  tool_named tools (object _) = err type_error
  tool_named tools _ = err key_error

  unfoldable pub execute_tool : Dict (Tool (Output V) W) → Fields → W → Result (Output V) × W
  unfolding tool_named
  execute_tool tools call w = elim (entry "name" call >>= tool_named tools) [
    | err e ↦ (err e, w)
    | ok tool ↦ elim (entry "arguments" call) [
      | err e ↦ (err e, w)
      | ok arguments ↦ tool.execute arguments w
    ]
  ]

  -- `asyncio.gather(..., return_exceptions=True)`
  unfoldable pub gather :
      Dict (Tool (Output V) W) → List Fields → W → List (Fields × Result (Output V)) × W
  unfolding execute_tool
  gather tools [] w = ([], w)
  gather tools (c ∷ cs) w =
      let (r, w') = execute_tool tools c w in
      let (rs, w'') = gather tools cs w' in ((c, r) ∷ rs, w'')

  -- the text of a result in the message to the model
  abbrev pub payload : Result (Output V) → Result Text
  payload (err e) = ok (host.dumps_error e)
  payload (ok (plain t)) = ok t
  payload (ok (value v)) = host.dumps v

  -- the loop over the calls and their results: the new messages and the step's `tool_results`
  unfoldable pub collect :
      List (Fields × Result (Output V)) → Result (List ChatMessage × List (ToolOutcome V))
  collect [] = ok ([], [])
  collect ((call, r) ∷ rest) = do
    content ← payload r
    name ← entry "name" call
    (messages, results) ← collect rest
    ok (
      record { role = "tool"; content = content; name = some name } ∷ messages,
      outcome_of name r ∷ results,
    )

  -- the rest of the loop's body, once the tools have returned
  unfoldable pub resume :
      Progress V
      → ModelResponse
      → List Fields
      → List (Fields × Result (Output V))
      → AgentStatus
      → Result (Progress V)
  unfolding collect
  resume p response calls results awaiting = do
    (messages, tool_results) ← collect results
    status ← transition awaiting running
    let step : AgentStep V = record {
      iteration = p.iteration;
      model_response = response.content;
      tool_calls = calls;
      tool_results = tool_results;
    }
    ok (record {
      status = status;
      iteration = p.iteration + 1;
      steps = p.steps ++ step ∷ [];
      messages =
          p.messages
          ++ messages
          ++ record { role = "assistant"; content = response.content; name = none } ∷ [];
    })

  -- the body of the loop after the model has responded
  unfoldable pub respond :
      Dict (Tool (Output V) W) → Progress V → ModelResponse → List Fields → W → Result (Turn V) × W
  unfolding finish gather resume
  respond tools p response [] w = (as_answered (finish p response), w)
  respond tools p response (c ∷ cs) w = elim (transition p.status awaiting_tool) [
    | err e ↦ (err e, w)
    | ok awaiting ↦
        let (results, w') = gather tools (c ∷ cs) w in
        (as_again (resume p response (c ∷ cs) results awaiting), w')
  ]

  -- the parser of the calls may raise
  unfoldable pub respond_to :
      Dict (Tool (Output V) W)
      → Progress V
      → ModelResponse
      → Result (List Fields)
      → W
      → Result (Turn V) × W
  unfolding respond
  respond_to tools p response (ok calls) w = respond tools p response calls w
  respond_to tools p response (err e) w = (err e, w)

  -- one iteration
  unfoldable pub turn : Text → Dict (Tool (Output V) W) → Progress V → W → Result (Turn V) × W
  unfolding respond_to tool_calls_of
  turn system tools p w =
      let (r, w') = host.generate (request_with p.messages (codes "agent") system) w in
      elim r [
        | err e ↦ (err e, w')
        | ok response ↦ respond_to tools p response (tool_calls_of host response) w'
      ]

  -- the loop, on the iterations left
  unfoldable pub loop :
      ℕ → Text → Dict (Tool (Output V) W) → ℕ → Progress V → W → Result (AgentResult V) × W
  unfolding turn give_up
  loop max_iterations system tools zero p w = (give_up max_iterations p, w)
  loop max_iterations system tools (suc left) p w =
      let (r, w') = turn system tools p w in
      elim r [
        | err e ↦ (err e, w')
        | ok (answered result) ↦ (ok result, w')
        | ok (again p') ↦ loop max_iterations system tools left p' w'
      ]

  -- `AgentExecutor.run`
  unfoldable pub run : ℕ → Dict (Tool (Output V) W) → Text → W → Result (AgentResult V) × W
  unfolding loop build_system_prompt
  run max_iterations tools task w = elim (transition created running) [
    | err e ↦ (err e, w)
    | ok status ↦
        loop max_iterations (build_system_prompt host tools) tools max_iterations
          (at_start task status) w
  ]
