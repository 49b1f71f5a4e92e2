-- ===== src/Agents/Trace.antt =====
-- The steps and results of src/athenai/agents/state.py, and what the loop of agents/executor.py carries
-- along. The model, `json` and the tools act on a world `W`.
use athena_ai.Prelude.{ℕ, Text, List}
use athena_ai.Core.Errors.{Error, Result}
use athena_ai.Core.Json.{Json, Fields}
use athena_ai.Models.Base.{ChatMessage, ModelRequest, ModelResponse}
use athena_ai.Agents.State.{AgentStatus}
use athena_ai.Tools.Registry.{ToolSchema}

-- what a tool returns: a `str`, or another value
pub data Output (V : Type 0) : Type 0 where
  plain : Text → Output V
  value : V → Output V

-- an entry of a step's `tool_results`
pub data ToolOutcome (V : Type 0) : Type 0 where
  returned : Json → Output V → ToolOutcome V
  raised : Json → Error → ToolOutcome V

pub record AgentStep (V : Type 0) : Type 0 where
  pub iteration : ℕ
  pub model_response : Text
  pub tool_calls : List Fields
  pub tool_results : List (ToolOutcome V)

pub record AgentResult (V : Type 0) : Type 0 where
  pub final_answer : Text
  pub steps : List (AgentStep V)
  pub total_iterations : ℕ
  pub status : AgentStatus

-- where the next iteration starts: its number, the steps and the messages so far
pub record Progress (V : Type 0) : Type 0 where
  pub status : AgentStatus
  pub iteration : ℕ
  pub steps : List (AgentStep V)
  pub messages : List ChatMessage

pub data Turn (V : Type 0) : Type 0 where
  again : Progress V → Turn V
  answered : AgentResult V → Turn V

-- how `json.loads` ends: with a value, with JSONDecodeError, or with another exception, such as the
-- ValueError for an int of too many digits, or RecursionError
pub data Loaded : Type 0 where
  decoded : Json → Loaded
  not_json : Loaded
  fails : Error → Loaded

-- what a run calls: `generate` of the model adapter, and `json`
pub record Host (V W : Type 0) : Type 0 where
  pub generate : ModelRequest → W → Result ModelResponse × W
  pub loads : Text → Loaded
  -- `json.dumps` of a tool's value, which may raise TypeError
  pub dumps : V → Result Text
  -- `json.dumps({"error": str(e)})`
  pub dumps_error : Error → Text
  -- `json.dumps(schemas, indent=2)`
  pub dumps_schemas : List ToolSchema → Text
