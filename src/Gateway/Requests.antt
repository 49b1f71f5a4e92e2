-- ===== src/Gateway/Requests.antt =====
-- The request that src/athenai/gateway/routes.py makes of the body of a chat, as the adapters read it.
use mathlib.Core.Path.{ap₂}
use text.Mathlib.TextEquality.{eq_iff}
use athena_ai.Prelude.{
  ◌≡◌, refl, ap, ◌∙◌, String, Text, Bool, true, false, none, List, [], ◌∷◌, map, string_eq, arith,
}
use athena_ai.Core.Errors.{ok, ◌>>=◌, >>=-eq-ok}
use athena_ai.Core.Types.{MessageRole, Message, AiRequest, post_init}
use athena_ai.Models.Base as Base
use athena_ai.Runtime.Pipeline.{FreshIds, role_name, chat_message}
use athena_ai.Gateway.Schemas.{ChatMessage, ChatRequest}
use athena_ai.Gateway.Routes.{message_role, messages_of, request_of}

role_name-message_role :
    (role : String) {r : MessageRole} → message_role role ≡ ok r → role_name r ≡ role
unfolding message_role
role_name-message_role role e =
    ground
      (arith, eq_iff role "system", eq_iff role "user", eq_iff role "assistant", eq_iff role "tool")

-- a message of the body, as the adapters read it
abbrev pub plain : ChatMessage → Base.ChatMessage
plain m = record { role = m.role; content = m.content; name = none }

abbrev message_with : MessageRole → Text → Message
message_with role content = record {
  role = role;
  content = content;
  tool_call_id = none;
  name = none;
}

pub map-messages_of :
    (ms : List ChatMessage) {messages : List Message}
    → messages_of ms ≡ ok messages
    → map chat_message messages ≡ map plain ms
unfolding messages_of
map-messages_of [] {messages} e = let made : messages ≡ [] = cc in rw made refl
map-messages_of (m ∷ ms) {messages} e =
    let (role, known, e') =
      >>=-eq-ok (message_role m.role)
        (λ role. messages_of ms >>= λ rest. ok (message_with role m.content ∷ rest)) e in
    let (rest, others, e'') =
      >>=-eq-ok (messages_of ms) (λ rest. ok (message_with role m.content ∷ rest)) e' in
    let made : messages ≡ message_with role m.content ∷ rest = cc in
    rw made (
      ap₂ (λ r tail. record { role = r; content = m.content; name = none } ∷ tail)
        (role_name-message_role m.role known) (map-messages_of ms others))

abbrev request_with : FreshIds → Bool → ChatRequest → List Message → AiRequest
request_with minted streaming body messages = record {
  messages = messages;
  user_id = body.user_id;
  session_id = body.session_id;
  request_id = minted.request_id;
  trace_id = minted.trace_id;
  model_role = body.model;
  stream = streaming;
}

post_init-eq : (r : AiRequest) {request : AiRequest} → post_init r ≡ ok request → r ≡ request
unfolding post_init
post_init-eq r e = ground arith

pub messages-request_of :
    (minted : FreshIds) (streaming : Bool) (body : ChatRequest) {request : AiRequest}
    → request_of minted streaming body ≡ ok request
    → messages_of body.messages ≡ ok request.messages
unfolding request_of post_init
messages-request_of minted streaming body {request} e =
    let built = λ (messages : List Message). request_with minted streaming body messages in
    let (messages, known, e') =
      >>=-eq-ok (messages_of body.messages) (λ messages. post_init (built messages)) e in
    known ∙ ap (λ (r : AiRequest). ok r.messages) (post_init-eq (built messages) e')

streamed-post_init :
    (minted : FreshIds) (body : ChatRequest) (messages : List Message) {request : AiRequest}
    → post_init (request_with minted false body messages) ≡ ok request
    → post_init (request_with minted true body messages) ≡ ok (record request { stream = true })
unfolding post_init
streamed-post_init minted body [] e = cc
streamed-post_init minted body (m ∷ ms) {request} e =
    let same : request_with minted false body (m ∷ ms) ≡ request = cc in
    ap (λ (r : AiRequest). ok (record r { stream = true })) same

-- the request of the streaming endpoint
pub streamed-request_of :
    (minted : FreshIds) (body : ChatRequest) {request : AiRequest}
    → request_of minted false body ≡ ok request
    → request_of minted true body ≡ ok (record request { stream = true })
unfolding request_of
streamed-request_of minted body {request} e =
    let (messages, known, e') =
      >>=-eq-ok (messages_of body.messages)
        (λ messages. post_init (request_with minted false body messages)) e in
    rw known (streamed-post_init minted body messages e')
