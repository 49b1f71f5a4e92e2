-- ===== src/Resilience/Timeout.antt =====
-- src/athenai/resilience/timeout.py. `asyncio.wait_for` is a parameter: it runs `fn` and may raise
-- TimeoutError instead of returning what `fn` returns.
use athena_ai.Core.Errors.{Error, Result, ok, err, athena, timeout, tool_timeout}

-- `except TimeoutError`
as_tool_timeout : Error → Error
as_tool_timeout timeout = athena tool_timeout
as_tool_timeout (athena e) = athena e
as_tool_timeout e = e

relabel {ℓ} : {A : Type ℓ} → Result A → Result A
unfolding as_tool_timeout
relabel (ok a) = ok a
relabel (err e) = err (as_tool_timeout e)

module _ {ℓ κ} {A : Type ℓ} {W : Type κ} {Time : Type 0} where
  unfoldable pub with_timeout :
      ((W → Result A × W) → Time → W → Result A × W) → (W → Result A × W) → Time → W → Result A × W
  unfolding relabel
  with_timeout wait_for fn seconds w = let (r, w') = wait_for fn seconds w in (relabel r, w')
