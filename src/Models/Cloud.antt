-- ===== src/Models/Cloud.antt =====
-- src/athenai/models/cloud.py. The temperature of a request is not sent.
use athena_ai.Prelude.{
  ℕ, ◌≤◌, ◌<◌, ◌≡◌, ◌≢◌, ◌⊎◌, inl, inr, refl, Text, codes, Bool, false, Option, none, some, List,
  [], ◌∷◌, ◌==◌, nat_eq, leb, ltb, if◌then◌else◌, arith, Bool-cases,
}
use athena_ai.Core.Errors.{Result, ok, err, ◌>>=◌, athena, model_unavailable, rate_limit, key_error}
use athena_ai.Models.Base.{ChatMessage, ModelRequest, ModelResponse, Model}
use athena_ai.Models.Wire.{Reply, Sent, timed_out, unreachable, replied, Client}

pub record CloudModel : Type 0 where
  pub api_key : Text
  pub model_name : Text
  pub base_url : Text

-- what is sent; `system` is left out where it is empty
pub record Payload : Type 0 where
  pub model : Text
  pub max_tokens : ℕ
  pub messages : List ChatMessage
  pub system : Option Text

-- a block of "content": its "text", if it has one
abbrev pub Block : Type 0
Block = Option Text

pub record Body : Type 0 where
  pub content : List Block
  pub model : Option Text
  pub input_tokens : Option ℕ
  pub output_tokens : Option ℕ
  pub stop_reason : Option Text

-- `a or b` on texts
abbrev pub or_text : Text → Text → Text
or_text [] b = b
or_text (c ∷ cs) b = c ∷ cs

abbrev or_default : {A : Type 0} → Option A → A → A
or_default none a = a
or_default (some b) a = b

abbrev when_given : Text → Option Text
when_given [] = none
when_given (c ∷ cs) = some (c ∷ cs)

unfoldable pub payload_of : CloudModel → ModelRequest → Payload
payload_of m request = record {
  model = or_text request.model_name m.model_name;
  max_tokens = request.max_tokens;
  messages = request.messages;
  system = when_given request.system;
}

-- `data["content"][0]["text"] if data.get("content") else ""`
first_text : List Block → Result Text
first_text [] = ok []
first_text (none ∷ bs) = err key_error
first_text (some t ∷ bs) = ok t

unfoldable pub response_of : CloudModel → Body → Result ModelResponse
unfolding first_text
response_of m body = do
  content ← first_text body.content
  ok (record {
    content = content;
    model_name = or_default body.model m.model_name;
    input_tokens = or_default body.input_tokens 0;
    output_tokens = or_default body.output_tokens 0;
    finish_reason = or_default body.stop_reason (codes "stop");
    structured_calls = [];
  })

unfoldable pub read_reply : CloudModel → Reply Body → Result ModelResponse
read_reply m reply =
    if reply.status_code == 429
    then err (athena rate_limit)
    else if reply.status_code == 401
    then err (athena model_unavailable)
    else if reply.status_code == 403
    then err (athena model_unavailable)
    else if leb 500 reply.status_code
    then err (athena model_unavailable)
    else if leb 400 reply.status_code
    then err (athena model_unavailable)
    else reply.json >>= response_of m

unfoldable pub receive : CloudModel → Sent Body → Result ModelResponse
unfolding read_reply
receive m timed_out = err (athena model_unavailable)
receive m unreachable = err (athena model_unavailable)
receive m (replied reply) = read_reply m reply

is_reachable : Sent Body → Bool
is_reachable timed_out = false
is_reachable unreachable = false
is_reachable (replied reply) = ltb reply.status_code 500

module _ {W : Type 0} (client : Client Payload Body W) (m : CloudModel) where
  -- `CloudModel.generate`
  unfoldable pub generate : ModelRequest → W → Result ModelResponse × W
  unfolding receive payload_of
  generate request w =
      let (sent, w') = client.post m.base_url (payload_of m request) w in (receive m sent, w')

  -- `CloudModel.health_check`, at an address of its own
  unfoldable pub health_check : W → Bool × W
  unfolding is_reachable
  health_check w =
      let (sent, w') = client.get (codes "https://api.anthropic.com/v1/models") w in
      (is_reachable sent, w')

  abbrev pub as_model : Model W
  as_model = record { generate = generate; health_check = health_check }

-- What becomes of an exchange: no reply, or 400 and above, is an error, RateLimitError for 429 and
-- ModelUnavailableError for all else; below 400 the body decides.
receive_lem :
    (m : CloudModel) (sent : Sent Body)
    → ((receive m sent ≡ err (athena model_unavailable))
        × ((sent ≡ timed_out)
            ⊎ ((sent ≡ unreachable)
                ⊎ ((reply : Reply Body) × (sent ≡ replied reply)
                    × (400 ≤ reply.status_code)
                    × (reply.status_code ≢ 429)))))
      ⊎ (((reply : Reply Body) × (sent ≡ replied reply)
            × (reply.status_code ≡ 429)
            × (receive m sent ≡ err (athena rate_limit)))
          ⊎ ((reply : Reply Body) × (sent ≡ replied reply)
              × (reply.status_code < 400)
              × (receive m sent ≡ (reply.json >>= response_of m))))
unfolding receive
receive_lem m timed_out = inl (refl, inl refl)
receive_lem m unreachable = inl (refl, inr (inl refl))
receive_lem m (replied reply) = elim (Bool-cases (reply.status_code == 429)) [
  | inl limited ↦ inr (inl (reply, refl, ground arith, rw (limited, read_reply)))
  | inr other ↦ elim (Bool-cases (leb 400 reply.status_code)) [
    | inl refused ↦ inl (ground arith, inr (inr (reply, refl, ground arith, ground arith)))
    | inr fine ↦ inr (inr (reply, refl, ground arith, ground arith))
  ]
]
