-- ===== src/Gateway/Chat.antt =====
-- What a client of src/athenai/gateway/routes.py gets from a chat, through the runtime and the adapters.
use mathlib.Core.List.{map-append}
use athena_ai.Prelude.{
  ℕ, ◌+◌, ◌≡◌, refl, ap, ◌∙◌, String, Text, codes, true, false, List, [], ◌∷◌, ◌++◌, map, ◌==◌,
  string_eq, All,
}
use athena_ai.Core.Errors.{Error, ok, attribute_error}
use athena_ai.Core.Types.{AiRequest}
use athena_ai.Models.Base as Base
use athena_ai.Models.Mock.{MockModel, generate, echo, generate-eq-echo}
use athena_ai.Models.Mock as Mock
use athena_ai.Models.Cloud.{CloudModel, payload_of, or_text}
use athena_ai.Models.Cloud as Cloud
use athena_ai.Models.Local as Local
use athena_ai.Models.Wire.{Client}
use athena_ai.Models.Registry.{mock, cloud}
use athena_ai.Runtime.Pipeline.{
  FreshIds, role_name, chat_message, model_request, execute, ai_response, execute_task, alone,
  stream_task, tokens_of,
}
use athena_ai.Runtime.Pipeline as Pipeline
use athena_ai.Gateway.Schemas.{ChatMessage, ChatRequest, ChatResponse}
use athena_ai.Gateway.Routes.{
  replied, Metrics, count, request_of, answer_chat, chat, event, event_stream, chat_stream,
  chat_response,
}
use athena_ai.Gateway.App.{backend_of}
use athena_ai.Gateway.Requests.{plain, map-messages_of, messages-request_of, streamed-request_of}

map-middle :
    (before : List ChatMessage) (m : ChatMessage) (after : List ChatMessage)
    → map plain (before ++ m ∷ after) ≡ map plain before ++ plain m ∷ map plain after
map-middle before m after = map-append plain before (m ∷ after)

All-plain :
    (after : List ChatMessage)
    → All (λ (x : ChatMessage). (x.role == "user") ≡ false) after
    → All (λ (x : Base.ChatMessage). (x.role == "user") ≡ false) (map plain after)
All-plain [] h = tt
All-plain (x ∷ after) h = (h.0, All-plain after h.1)

module _ {W : Type 0} (cloud_client : Client Cloud.Payload Cloud.Body W)
    (local_client : Client Local.Payload Local.Body W) (capitalize : String → Text) where
  -- A chat with the mock adapter, on a body that makes a request: the reply is the adapter's name
  -- and the last message of the user, whatever stands before it and whatever other roles say after
  -- it; the reply bears the request's id or the minted one, the total of the tokens is the sum of
  -- both counts, and the call is counted once, as a success.
  pub chat-echo :
      (model : MockModel) (minted : FreshIds) (body : ChatRequest) (before : List ChatMessage)
      (m : ChatMessage) (after : List ChatMessage) (w : W) (metrics : Metrics) {request : AiRequest}
      → request_of minted false body ≡ ok request
      → body.messages ≡ before ++ m ∷ after
      → (m.role == "user") ≡ true
      → All (λ (x : ChatMessage). (x.role == "user") ≡ false) after
      → (response : ChatResponse) × (chat
            (backend_of cloud_client local_client capitalize (mock model))
            minted
            body
            w
            metrics
          ≡ (replied response, (w, count "/v1/chat" "success" metrics)))
        × (response.content ≡ echo model.name m.content)
        × (response.request_id ≡ or_text request.request_id minted.request_id)
        × (response.usage.total_tokens ≡ response.usage.input_tokens + response.usage.output_tokens)
  unfolding chat execute execute_task alone answer_chat backend_of model_request
  chat-echo model minted body before m after w metrics {request} e cut user others =
      let read : map chat_message request.messages ≡ map plain before ++ plain m ∷ map plain after =
        map-messages_of body.messages (messages-request_of minted false body e)
        ∙ ap (map plain) cut
        ∙ map-middle before m after in
      (
        chat_response (ai_response request minted (generate model (model_request request))),
        rw (e, chat) refl,
        generate-eq-echo model (model_request request) (map plain before) (plain m)
            (map plain after) read user (All-plain after others),
        refl,
        refl,
      )

  -- On a body that makes a request, with the mock adapter, the streaming endpoint sends the
  -- characters of what /v1/chat replies to the same body, one event for each, and the event that
  -- ends the stream; each endpoint counts one success.
  pub chat_stream-eq-chat :
      (model : MockModel) (str : Error → Text) (minted : FreshIds) (body : ChatRequest) (w : W)
      (metrics : Metrics) {request : AiRequest}
      → request_of minted false body ≡ ok request
      → (response : ChatResponse) × (chat
            (backend_of cloud_client local_client capitalize (mock model))
            minted
            body
            w
            metrics
          ≡ (replied response, (w, count "/v1/chat" "success" metrics)))
        × (chat_stream
              (backend_of cloud_client local_client capitalize (mock model))
              str
              minted
              body
              w
              metrics
            ≡ (
              replied
                  (map event (map (λ c. c ∷ []) response.content) ++ event (codes "[DONE]") ∷ []),
              (w, count "/v1/chat/stream" "success" metrics),
            ))
  unfolding chat chat_stream execute execute_task alone stream_task tokens_of answer_chat
      event_stream backend_of model_request generate Pipeline.stream Mock.stream
  chat_stream-eq-chat model str minted body w metrics {request} e = (
    chat_response (ai_response request minted (generate model (model_request request))),
    rw (e, chat) refl,
    rw (streamed-request_of minted body e, chat_stream) refl,
  )

  -- The adapter over Anthropic's API has no `stream`: the streaming endpoint sends an error event for
  -- AttributeError and the event that ends it, without a call of the API, and counts an error.
  chat_stream-cloud :
      (model : CloudModel) (str : Error → Text) (minted : FreshIds) (body : ChatRequest) (w : W)
      (metrics : Metrics) {request : AiRequest}
      → request_of minted true body ≡ ok request
      → chat_stream
          (backend_of cloud_client local_client capitalize (cloud model))
          str
          minted
          body
          w
          metrics
        ≡ (
          replied (event (codes "[ERROR] " ++ str attribute_error) ∷ event (codes "[DONE]") ∷ []),
          (w, count "/v1/chat/stream" "error" metrics),
        )
  unfolding chat_stream event_stream backend_of Pipeline.stream stream_task tokens_of alone
  chat_stream-cloud model str minted body w metrics e = rw (e, chat_stream) refl

or_text-filled : (a b c : Text) (x : ℕ) → or_text (or_text a (x ∷ b)) c ≡ or_text a (x ∷ b)
or_text-filled [] b c x = refl
or_text-filled (y ∷ ys) b c x = refl

-- What the runtime sends to Anthropic's API does not depend on the model that the adapter is configured
-- with: the name is the role of the request.
payload_of-model_request :
    (model : CloudModel) (name : Text) (request : AiRequest)
    → payload_of (record model { model_name = name }) (model_request request)
      ≡ payload_of model (model_request request)
unfolding payload_of model_request
payload_of-model_request model name request = rw (
  or_text-filled request.model_role (codes "efault") name 100,
  or_text-filled request.model_role (codes "efault") model.model_name 100,
)
