-- ===== src/Models/Local.antt =====
-- src/athenai/models/local.py. `str.capitalize` is a parameter.
use athena_ai.Prelude.{
  ◌/◌, max, String, Text, codes, Bool, true, false, List, [], ◌∷◌, ◌++◌, map, ◌==◌, nat_eq, leb,
  length, if◌then◌else◌,
}
use athena_ai.Core.Errors.{Result, ok, err, ◌>>=◌, athena, model_unavailable}
use athena_ai.Models.Base.{ChatMessage, ModelRequest, ModelResponse, Model}
use athena_ai.Models.Cloud.{or_text}
use athena_ai.Models.Wire.{Reply, Sent, timed_out, unreachable, replied, Client}

pub record LocalModel : Type 0 where
  pub model_name : Text
  pub base_url : Text

-- the payload; `stream` is always false
pub record Payload : Type 0 where
  pub model : Text
  pub prompt : Text
  pub temperature : String

pub record Body : Type 0 where
  pub response : Text
  pub finished : Bool

join_lines : List Text → Text
join_lines [] = []
join_lines (t ∷ []) = t
join_lines (t ∷ u ∷ ts) = t ++ 10 ∷ join_lines (u ∷ ts)

system_part : Text → List Text
system_part [] = []
system_part (c ∷ cs) = (codes "System: " ++ c ∷ cs) ∷ []

-- the prompt that the messages are flattened into
unfoldable pub prompt_of : (String → Text) → ModelRequest → Text
unfolding join_lines system_part
prompt_of capitalize request = join_lines (
    system_part request.system
    ++ map (λ (m : ChatMessage). capitalize m.role ++ codes ": " ++ m.content) request.messages)

finish_reason_of : Bool → Text
finish_reason_of true = codes "stop"
finish_reason_of false = codes "length"

-- a response with the estimate of the tokens by the length of prompt and content
unfoldable pub response_of : LocalModel → Text → Body → ModelResponse
unfolding finish_reason_of
response_of m prompt body = record {
  content = body.response;
  model_name = m.model_name;
  input_tokens = max 1 (length prompt / 4);
  output_tokens = max 1 (length body.response / 4);
  finish_reason = finish_reason_of body.finished;
  structured_calls = [];
}

read_reply : LocalModel → Text → Reply Body → Result ModelResponse
unfolding response_of
read_reply m prompt reply =
    if leb 400 reply.status_code
    then err (athena model_unavailable)
    else reply.json >>= λ body. ok (response_of m prompt body)

unfoldable pub receive : LocalModel → Text → Sent Body → Result ModelResponse
unfolding read_reply
receive m prompt timed_out = err (athena model_unavailable)
receive m prompt unreachable = err (athena model_unavailable)
receive m prompt (replied reply) = read_reply m prompt reply

is_healthy : Sent Body → Bool
is_healthy timed_out = false
is_healthy unreachable = false
is_healthy (replied reply) = reply.status_code == 200

module _ {W : Type 0} (capitalize : String → Text) (client : Client Payload Body W)
    (m : LocalModel) where
  -- `LocalModel.generate`
  unfoldable pub generate : ModelRequest → W → Result ModelResponse × W
  unfolding receive prompt_of
  generate request w =
      let prompt = prompt_of capitalize request in
      let payload : Payload = record {
        model = or_text request.model_name m.model_name;
        prompt = prompt;
        temperature = request.temperature;
      } in
      let (sent, w') = client.post (m.base_url ++ codes "/api/generate") payload w in
      (receive m prompt sent, w')

  -- `LocalModel.health_check`
  unfoldable pub health_check : W → Bool × W
  unfolding is_healthy
  health_check w =
      let (sent, w') = client.get (m.base_url ++ codes "/api/tags") w in (is_healthy sent, w')

  abbrev pub as_model : Model W
  as_model = record { generate = generate; health_check = health_check }
