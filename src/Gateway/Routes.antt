-- ===== src/Gateway/Routes.antt =====
-- src/athenai/gateway/routes.py. A handler acts on the world and on the counters. `str(exc)` is a
-- parameter, and the two ids that `uuid4` mints for a request are an argument. `/metrics` only prints
-- the counters.
use athena_ai.Prelude.{
  ℕ, ◌+◌, String, Text, codes, Bool, true, false, Option, none, some, List, [], ◌∷◌, ◌++◌, map,
  ◌==◌, string_eq, if◌then◌else◌,
}
use athena_ai.Core.Errors.{Error, Result, ok, err, ◌>>=◌, value_error}
use athena_ai.Core.Types.{
  MessageRole, system, user, assistant, tool, Message, AiRequest, post_init, AiResponse,
}
use athena_ai.Agents.Trace.{AgentStep, AgentResult}
use athena_ai.Runtime.Pipeline.{Backend, FreshIds, Streamed, execute}
use athena_ai.Runtime.Pipeline as Pipeline
use athena_ai.Rag.Loader.{Call, DocumentLoader, Store, ingest}
use athena_ai.Gateway.Schemas.{
  ChatMessage, ChatRequest, ChatResponse, AgentRunRequest, AgentStepSchema, AgentRunResponse,
  DocumentIngestRequest, DocumentIngestResponse, HealthResponse, ReadyResponse,
}

-- what a client gets: a reply with 200, an HTTPException with the exception that it hides, or the
-- server's own answer to an exception that no handler catches
pub data Answer {ℓ} (A : Type ℓ) : Type ℓ where
  replied : A → Answer A
  http_error : ℕ → Option Error → Answer A
  uncaught : Error → Answer A

-- the increments of `requests_total`, newest first, by endpoint and status
pub record Metrics : Type 0 where
  pub requests_total : List (String × String)
  pub agent_iterations_total : ℕ

abbrev pub count : String → String → Metrics → Metrics
count endpoint status metrics = record metrics {
  requests_total = (endpoint, status) ∷ metrics.requests_total;
}

-- `MessageRole(m.role)`
unfoldable pub message_role : String → Result MessageRole
message_role role =
    if role == "system"
    then ok system
    else if role == "user"
    then ok user
    else if role == "assistant"
    then ok assistant
    else if role == "tool"
    then ok tool
    else err value_error

unfoldable pub messages_of : List ChatMessage → Result (List Message)
unfolding message_role
messages_of [] = ok []
messages_of (m ∷ ms) = message_role m.role >>= λ role. messages_of ms >>= λ rest.
    ok (record { role = role; content = m.content; tool_call_id = none; name = none } ∷ rest)

-- the `AIRequest` of a chat
unfoldable pub request_of : FreshIds → Bool → ChatRequest → Result AiRequest
unfolding messages_of
request_of minted streaming body = messages_of body.messages >>= λ messages. post_init (record {
  messages = messages;
  user_id = body.user_id;
  session_id = body.session_id;
  request_id = minted.request_id;
  trace_id = minted.trace_id;
  model_role = body.model;
  stream = streaming;
})

abbrev pub chat_response : AiResponse → ChatResponse
chat_response response = record {
  content = response.content;
  model = response.model;
  trace_id = response.trace_id;
  usage = record {
    input_tokens = response.usage.input_tokens;
    output_tokens = response.usage.output_tokens;
    total_tokens = response.usage.total_tokens;
  };
  request_id = response.request_id;
}

-- f"data: {token}\n\n"
abbrev pub event : Text → Text
event token = codes "data: " ++ token ++ codes "\n\n"

abbrev pub error_events : (Error → Text) → Option Error → List Text
error_events str none = []
error_events str (some e) = event (codes "[ERROR] " ++ str e) ∷ []

abbrev pub status_of : Option Error → String
status_of none = "success"
status_of (some e) = "error"

abbrev pub step_schema : {V : Type 0} → AgentStep V → AgentStepSchema V
step_schema s = record {
  iteration = s.iteration;
  model_response = s.model_response;
  tool_calls = s.tool_calls;
  tool_results = s.tool_results;
}

-- `GET /health`
abbrev pub health : HealthResponse
health = record { status = "ok"; version = "1.0.0" }

module _ {W : Type 0} (runtime : Backend W) where
  -- `GET /ready`
  unfoldable pub ready : W → ReadyResponse × W
  ready w =
      let (healthy, w') = runtime.model.health_check w in
      (record { status = if healthy then "ready" else "not_ready"; model_healthy = healthy }, w')

  -- the `try` of `chat`
  unfoldable pub answer_chat : Result AiResponse × W → Metrics → Answer ChatResponse × (W × Metrics)
  answer_chat (ok response, w) metrics =
      (replied (chat_response response), (w, count "/v1/chat" "success" metrics))
  answer_chat (err e, w) metrics = (http_error 500 (some e), (w, count "/v1/chat" "error" metrics))

  -- `POST /v1/chat`
  unfoldable pub chat : FreshIds → ChatRequest → W → Metrics → Answer ChatResponse × (W × Metrics)
  unfolding request_of answer_chat
  chat minted body w metrics = elim (request_of minted false body) [
    | err e ↦ (uncaught e, (w, metrics))
    | ok request ↦ answer_chat (execute runtime minted request w) metrics
  ]

  -- `event_stream`
  unfoldable pub event_stream :
      (Error → Text) → Streamed × W → Metrics → Answer (List Text) × (W × Metrics)
  event_stream str ((tokens, raised), w) metrics = (
    replied (map event tokens ++ (error_events str raised ++ event (codes "[DONE]") ∷ [])),
    (w, count "/v1/chat/stream" (status_of raised) metrics),
  )

  -- `POST /v1/chat/stream`, with the events that the client reads
  unfoldable pub chat_stream :
      (Error → Text) → FreshIds → ChatRequest → W → Metrics → Answer (List Text) × (W × Metrics)
  unfolding request_of event_stream
  chat_stream str minted body w metrics = elim (request_of minted true body) [
    | err e ↦ (uncaught e, (w, metrics))
    | ok request ↦ event_stream str (Pipeline.stream runtime request w) metrics
  ]

module _ {V W : Type 0} where
  unfoldable pub answer_run :
      Result (AgentResult V) × W → Metrics → Answer (AgentRunResponse V) × (W × Metrics)
  answer_run (err e, w) metrics =
      (http_error 500 (some e), (w, count "/v1/agents/run" "error" metrics))
  answer_run (ok result, w) metrics =
      let counted = count "/v1/agents/run" "success" metrics in
      (
        replied (record {
          final_answer = result.final_answer;
          steps = map step_schema result.steps;
          total_iterations = result.total_iterations;
          status = result.status;
        }),
        (
          w,
          record counted {
            agent_iterations_total = counted.agent_iterations_total + result.total_iterations;
          },
        ),
      )

  -- `POST /v1/agents/run`; `run` is the method of `app.state.agent`
  unfoldable pub agent_run :
      (Text → W → Result (AgentResult V) × W)
      → AgentRunRequest
      → W
      → Metrics
      → Answer (AgentRunResponse V) × (W × Metrics)
  unfolding answer_run
  agent_run run body w metrics = answer_run (run body.task w) metrics

module _ {Float W : Type 0} where
  answer_ingest : String → Result ℕ × Store Float W → Answer DocumentIngestResponse × Store Float W
  answer_ingest document_id (err e, s) = (uncaught e, s)
  answer_ingest document_id (ok chunks, s) =
      (replied (record { document_id = document_id; chunks_stored = chunks }), s)

  -- `POST /v1/documents/ingest`
  unfoldable pub document_ingest :
      Option (DocumentLoader Float W)
      → Call Float
      → DocumentIngestRequest
      → Store Float W
      → Answer DocumentIngestResponse × Store Float W
  unfolding answer_ingest
  document_ingest none call body s = (http_error 503 none, s)
  document_ingest (some loader) call body s =
      answer_ingest body.document_id
        (ingest loader call body.content body.document_id body.source body.metadata s)
