-- ===== src/Gateway/Schemas.antt =====
-- src/athenai/gateway/schemas.py, with the constraints of its fields as tests.
use athena_ai.Prelude.{ℕ, String, Text, Bool, true, false, ◌&&◌, List, [], ◌∷◌, leb}
use athena_ai.Prelude.Dict.{Dict}
use athena_ai.Core.Json.{Json, Fields}
use athena_ai.Agents.State.{AgentStatus}
use athena_ai.Agents.Trace.{ToolOutcome}

pub record ChatMessage : Type 0 where
  pub role : String
  pub content : Text

pub record ChatRequest : Type 0 where
  pub messages : List ChatMessage
  pub model : Text
  pub stream : Bool
  pub user_id : String
  pub session_id : String

-- Field(..., min_length=1)
abbrev pub has_messages : ChatRequest → Bool
has_messages body = elim body.messages [ [] ↦ false | _ ∷ _ ↦ true ]

pub record UsageStats : Type 0 where
  pub input_tokens : ℕ
  pub output_tokens : ℕ
  pub total_tokens : ℕ

pub record ChatResponse : Type 0 where
  pub content : Text
  pub model : Text
  pub trace_id : Text
  pub usage : UsageStats
  pub request_id : Text

pub record AgentRunRequest : Type 0 where
  pub task : Text
  pub tools : List String
  pub max_iterations : ℕ
  pub user_id : String

-- Field(default=10, ge=1, le=25)
abbrev pub has_bounded_iterations : AgentRunRequest → Bool
has_bounded_iterations body = leb 1 body.max_iterations && leb body.max_iterations 25

pub record AgentStepSchema (V : Type 0) : Type 0 where
  pub iteration : ℕ
  pub model_response : Text
  pub tool_calls : List Fields
  pub tool_results : List (ToolOutcome V)

pub record AgentRunResponse (V : Type 0) : Type 0 where
  pub final_answer : Text
  pub steps : List (AgentStepSchema V)
  pub total_iterations : ℕ
  pub status : AgentStatus

pub record DocumentIngestRequest : Type 0 where
  pub content : Text
  pub document_id : String
  pub source : String
  pub metadata : Dict Json

pub record DocumentIngestResponse : Type 0 where
  pub document_id : String
  pub chunks_stored : ℕ

pub record HealthResponse : Type 0 where
  pub status : String
  pub version : String

pub record ReadyResponse : Type 0 where
  pub status : String
  pub model_healthy : Bool
