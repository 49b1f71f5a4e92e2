-- ===== src/Core/Types.antt =====
-- src/athenai/core/types.py: the request and response types of the pipeline. The free-form
-- `metadata` dicts of these types are read by none of the modelled code and are left out.
use athena_ai.Prelude.{ℕ, String, Text, Bool, Option, List, []}
use athena_ai.Core.Errors.{Result, ok, err, value_error}

pub data MessageRole : Type 0 where
  system user assistant tool : MessageRole

pub record Message : Type 0 where
  pub role : MessageRole
  pub content : Text
  pub tool_call_id : Option String
  pub name : Option String

pub record TokenUsage : Type 0 where
  pub input_tokens : ℕ
  pub output_tokens : ℕ
  pub total_tokens : ℕ

pub record AiRequest : Type 0 where
  pub messages : List Message
  pub user_id : String
  pub session_id : String
  pub request_id : Text
  pub trace_id : Text
  pub model_role : Text
  pub stream : Bool

-- `AIRequest.__post_init__`: no request without a message
unfoldable pub post_init : AiRequest → Result AiRequest
post_init r = elim r.messages [ [] ↦ err value_error | _ ↦ ok r ]

pub record AiResponse : Type 0 where
  pub content : Text
  pub model : Text
  pub trace_id : Text
  pub usage : TokenUsage
  pub request_id : Text
  pub finish_reason : Text

pub record RoutingContext : Type 0 where
  pub request_id : String
  pub user_id : String
  pub estimated_input_tokens : ℕ
  pub task_description : Text
  pub complexity : String
