-- ===== src/Gateway/Tests.antt =====
-- Requests at a gateway without keys.
mod Startup
mod Runs
mod Accounting
use athena_ai.Prelude.{
  ℕ, ◌+◌, ◌≡◌, refl, String, Text, codes, Bool, true, false, none, List, [], ◌∷◌, ◌++◌, map, ◌==◌,
  string_eq, if◌then◌else◌, arith,
}
use athena_ai.Prelude.Texts.{splitlines, strip, is_space, after_prefix}
use athena_ai.Agents.State.{completed}
use athena_ai.Agents.Protocol.{parse_tool_calls, calls_in_line}
use athena_ai.Gateway.Schemas.{
  AgentRunRequest, ChatMessage, ChatRequest, ChatResponse, DocumentIngestRequest,
}
use athena_ai.Gateway.Routes.{
  agent_run, replied, http_error, Metrics, count, messages_of, message_role, request_of, chat,
  event, chat_stream, document_ingest,
}
use athena_ai.Prelude.Dict.{get_or}
use athena_ai.Core.Errors.{Result, ok, err, key_error}
use athena_ai.Core.Types.{AiRequest, user, assistant, post_init}
use athena_ai.Models.Mock.{MockModel, echo}
use athena_ai.Models.Cloud.{or_text}
use athena_ai.Models.Cloud as Cloud
use athena_ai.Models.Local as Local
use athena_ai.Models.Wire.{timed_out, Client}
use athena_ai.Models.Registry.{mock}
use athena_ai.Agents.Trace.{Output, plain, Host, not_json}
use athena_ai.Tools.Registry.{Tool, get}
use athena_ai.Rag.Embedder.{CloudEmbedder}
use athena_ai.Rag.Retriever.{Row}
use athena_ai.Rag.Loader.{Call}
use athena_ai.Runtime.Pipeline.{FreshIds}
use athena_ai.Gateway.App.{
  App, Environment, setting, is_blank, allowed_domains, build_model, build_tool_registry,
  maybe_add_document_loader, backend_of, agent_with, lifespan,
}
use athena_ai.Gateway.Chat.{chat-echo, chat_stream-eq-chat}
use athena_ai.Gateway.Startup.{build_tool_registry_lem, document_ingest-unavailable}

abbrev cloud_client : Client Cloud.Payload Cloud.Body ℕ
cloud_client = record { post = λ url p w. (timed_out, w); get = λ url w. (timed_out, w) }

abbrev local_client : Client Local.Payload Local.Body ℕ
local_client = record { post = λ url p w. (timed_out, w); get = λ url w. (timed_out, w) }

abbrev minted : FreshIds
minted = record { trace_id = codes "t1"; request_id = codes "r1" }

abbrev question : ChatMessage
question = record { role = "user"; content = codes "why?" }

abbrev reminder : ChatMessage
reminder = record { role = "assistant"; content = codes "well" }

abbrev body : ChatRequest
body = record {
  messages = record question { content = codes "hi" } ∷ question ∷ reminder ∷ [];
  model = codes "default";
  stream = false;
  user_id = "u";
  session_id = "s";
}

abbrev metrics : Metrics
metrics = record { requests_total = []; agent_iterations_total = 0 }

abbrev the_mock : MockModel
the_mock = record { name = codes "mock"; healthy = true }

abbrev request : AiRequest
request = record {
  messages =
      record { role = user; content = codes "hi"; tool_call_id = none; name = none }
      ∷ record { role = user; content = codes "why?"; tool_call_id = none; name = none }
      ∷ record { role = assistant; content = codes "well"; tool_call_id = none; name = none }
      ∷ [];
  user_id = "u";
  session_id = "s";
  request_id = codes "r1";
  trace_id = codes "t1";
  model_role = codes "default";
  stream = false;
}

requested : request_of minted false body ≡ ok request
unfolding request_of messages_of message_role post_init
requested = refl

chat-echo_example :
    (response : ChatResponse) × (chat
        (backend_of cloud_client local_client codes (mock the_mock))
        minted
        body
        0
        metrics
      ≡ (replied response, (0, count "/v1/chat" "success" metrics)))
    × (response.content ≡ echo the_mock.name question.content)
    × (response.request_id ≡ or_text request.request_id minted.request_id)
    × (response.usage.total_tokens ≡ response.usage.input_tokens + response.usage.output_tokens)
chat-echo_example =
    chat-echo cloud_client local_client codes the_mock minted body
      (record question { content = codes "hi" } ∷ []) question (reminder ∷ []) 0 metrics requested
      refl refl (refl, tt)

chat_stream-eq-chat_example :
    (response : ChatResponse) × (chat
        (backend_of cloud_client local_client codes (mock the_mock))
        minted
        body
        0
        metrics
      ≡ (replied response, (0, count "/v1/chat" "success" metrics)))
    × (chat_stream
          (backend_of cloud_client local_client codes (mock the_mock))
          (λ e. codes "!")
          minted
          body
          0
          metrics
        ≡ (
          replied (map event (map (λ c. c ∷ []) response.content) ++ event (codes "[DONE]") ∷ []),
          (0, count "/v1/chat/stream" "success" metrics),
        ))
chat_stream-eq-chat_example =
    chat_stream-eq-chat cloud_client local_client codes the_mock (λ e. codes "!") minted body 0
      metrics requested

abbrev host : Host ℕ ℕ
host = record {
  generate = λ q w. (err key_error, w);
  loads = λ t. not_json;
  dumps = λ v. ok (codes "7");
  dumps_error = λ e. codes "error";
  dumps_schemas = λ ss. codes "[]";
}
