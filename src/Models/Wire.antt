-- ===== src/Models/Wire.antt =====
-- What the adapters over httpx send and get back. The client is a parameter of them; a reply is read
-- for its status and for the parts of its JSON body that the adapter asks for.
use athena_ai.Prelude.{ℕ, Text}
use athena_ai.Core.Errors.{Result}

pub record Reply (Body : Type 0) : Type 0 where
  pub status_code : ℕ
  -- `resp.json()`, which may raise
  pub json : Result Body

pub data Sent (Body : Type 0) : Type 0 where
  -- httpx.TimeoutException
  timed_out : Sent Body
  -- any other httpx.RequestError
  unreachable : Sent Body
  replied : Reply Body → Sent Body

-- a call with the payload `P`, and one of the health check
pub record Client (P Body W : Type 0) : Type 0 where
  pub post : Text → P → W → Sent Body × W
  pub get : Text → W → Sent Body × W
