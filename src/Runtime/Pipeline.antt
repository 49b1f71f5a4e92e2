-- ===== src/Runtime/Pipeline.antt =====
-- src/athenai/runtime/pipeline.py: `execute` and `stream` as coroutines that take the semaphore, call the
-- model and give the semaphore back, and what they come to where no other request runs.
-- Runtime/Admission runs any number of them. `uuid4` is an argument where it may be called.
use athena_ai.Prelude.{◌+◌, String, Text, codes, Option, none, some, List, [], map}
use athena_ai.Core.Errors.{Error, Result, ok, ◌>>=◌, attribute_error}
use athena_ai.Core.Types.{
  MessageRole, system, user, assistant, tool, Message, AiRequest, AiResponse,
}
use athena_ai.Models.Base.{ChatMessage, ModelRequest, ModelResponse, request_with, Model}
use athena_ai.Models.Cloud.{or_text}

-- the tokens that were yielded, and the exception that ended the iteration, if one did
abbrev pub Streamed : Type 0
Streamed = List Text × Option Error

-- the object that the runtime holds: an adapter, and its `stream`, if it has one
pub record Backend (W : Type 0) : Type 0 where
  pub model : Model W
  pub stream : Option (ModelRequest → W → Streamed × W)

-- `str(m.role)`
abbrev pub role_name : MessageRole → String
role_name system = "system"
role_name user = "user"
role_name assistant = "assistant"
role_name tool = "tool"

abbrev pub chat_message : Message → ChatMessage
chat_message m = record { role = role_name m.role; content = m.content; name = none }

-- the `ModelRequest` of both methods
unfoldable pub model_request : AiRequest → ModelRequest
model_request request =
    request_with (map chat_message request.messages) (or_text request.model_role (codes "default"))
      []

-- the ids that `uuid4` gives where the request brings none
pub record FreshIds : Type 0 where
  pub trace_id : Text
  pub request_id : Text

abbrev pub ai_response : AiRequest → FreshIds → ModelResponse → AiResponse
ai_response request fresh response = record {
  content = response.content;
  model = response.model_name;
  trace_id = or_text request.trace_id fresh.trace_id;
  usage = record {
    input_tokens = response.input_tokens;
    output_tokens = response.output_tokens;
    total_tokens = response.input_tokens + response.output_tokens;
  };
  request_id = or_text request.request_id fresh.request_id;
  finish_reason = response.finish_reason;
}

-- a coroutine on a world: it takes or gives back the semaphore of the runtime, or awaits a call, which
-- acts on the world and may choose how to go on
pub data Coroutine (W A : Type 0) : Type 0 where
  returns : A → Coroutine W A
  acquires : Coroutine W A → Coroutine W A
  releases : Coroutine W A → Coroutine W A
  calls : (W → W) → (W → Coroutine W A) → Coroutine W A

-- the semaphore never keeps a coroutine that runs alone waiting
unfoldable pub alone : {W A : Type 0} → Coroutine W A → W → A × W
alone (returns a) w = (a, w)
alone (acquires c) w = alone c w
alone (releases c) w = alone c w
alone (calls act go) w = alone (go w) (act w)

module _ {W : Type 0} (backend : Backend W) where
  -- `await self._model.generate(model_req)` under `async with self._semaphore`, and the rest; the
  -- semaphore is given back also where the model raises
  unfoldable pub execute_task :
      {A : Type 0} → (Result AiResponse → A) → FreshIds → AiRequest → Coroutine W A
  unfolding model_request
  execute_task done fresh request =
      let generate = backend.model.generate (model_request request) in
      acquires (
        calls (λ w. (generate w).1)
          (λ w. releases (
            returns
              (done ((generate w).0 >>= λ response. ok (ai_response request fresh response))))))

  -- `self._model.stream(model_req)`, to the end of the iteration
  unfoldable pub tokens_of : AiRequest → W → Streamed × W
  unfolding model_request
  tokens_of request w = elim backend.stream [
    | none ↦ (([], some attribute_error), w)
    | some tokens ↦ tokens (model_request request) w
  ]

  unfoldable pub stream_task : {A : Type 0} → (Streamed → A) → AiRequest → Coroutine W A
  unfolding tokens_of
  stream_task done request = acquires (
      calls (λ w. (tokens_of request w).1) (λ w. releases (returns (done (tokens_of request w).0))))

  -- `AthenaRuntime.execute`
  unfoldable pub execute : FreshIds → AiRequest → W → Result AiResponse × W
  unfolding execute_task alone
  execute fresh request w = alone (execute_task (λ r. r) fresh request) w

  -- `AthenaRuntime.stream`
  unfoldable pub stream : AiRequest → W → Streamed × W
  unfolding stream_task alone
  stream request w = alone (stream_task (λ r. r) request) w
