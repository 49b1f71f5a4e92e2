-- ===== src/Models/Base.antt =====
-- src/athenai/models/base.py, with core/protocols.py's `Model`. Of the metadata only the tool calls of
-- a response are read. The temperature is kept as the text of its literal: no code computes with it.
use athena_ai.Prelude.{ℕ, String, Text, Bool, Option, List}
use athena_ai.Core.Errors.{Result}
use athena_ai.Core.Json.{Json, Fields}

-- an entry of `messages`; `name` is set for the result of a tool
pub record ChatMessage : Type 0 where
  pub role : String
  pub content : Text
  pub name : Option Json

pub record ModelRequest : Type 0 where
  pub messages : List ChatMessage
  pub model_name : Text
  pub max_tokens : ℕ
  pub temperature : String
  pub system : Text

-- a request with the defaults of the other fields
abbrev pub request_with : List ChatMessage → Text → Text → ModelRequest
request_with messages model_name system = record {
  messages = messages;
  model_name = model_name;
  max_tokens = 4096;
  temperature = "0.7";
  system = system;
}

pub record ModelResponse : Type 0 where
  pub content : Text
  pub model_name : Text
  pub input_tokens : ℕ
  pub output_tokens : ℕ
  pub finish_reason : Text
  -- `metadata.get("tool_calls", [])`
  pub structured_calls : List Fields

-- a backend that acts on a world `W`
pub record Model (W : Type 0) : Type 0 where
  pub generate : ModelRequest → W → Result ModelResponse × W
  pub health_check : W → Bool × W
