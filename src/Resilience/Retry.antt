-- ===== src/Resilience/Retry.antt =====
-- src/athenai/resilience/retry.py. `fn` acts on a world and returns or raises; sleeping and the
-- random draw of the jitter are the environment's.
pub mod Attempts
pub mod Delays
use athena_ai.Prelude.{
  ℕ, zero, suc, ◌+◌, ◌-◌, ◌^◌, Bool, true, false, Option, none, some, ◌==◌, nat_eq, if◌then◌else◌,
}
use athena_ai.Prelude.Floats.{Floats, min_float}
use athena_ai.Core.Errors.{Error, Result, ok, err, runtime_error}

pub record RetryPolicy (Time : Type 0) : Type 0 where
  pub max_attempts : ℕ
  pub base_delay_s : Time
  pub max_delay_s : Time
  pub jitter : Bool

-- `random.uniform(0, delay)` and `asyncio.sleep`, on a world that they change.
pub record Environment (Time W : Type 0) : Type 0 where
  pub uniform : Time → W → Time × W
  pub sleep : Time → W → W

module _ (R : Floats) where
  open R use {Float, of_ℕ, mul}

  -- `min(policy.base_delay_s * (2**attempt), policy.max_delay_s)`
  unfoldable pub backoff : RetryPolicy Float → ℕ → Float
  backoff p attempt = min_float R (mul p.base_delay_s (of_ℕ (2 ^ attempt))) p.max_delay_s

  -- the wait between two attempts
  unfoldable pub pause : {W : Type 0} → Environment Float W → RetryPolicy Float → ℕ → W → W
  unfolding backoff
  pause env p attempt w =
      let delay = backoff p attempt in
      let (jittered, w') = env.uniform delay w in
      if p.jitter then env.sleep jittered w' else env.sleep delay w

  -- `last_exc or RuntimeError(...)`
  pub last_or : Option Error → Error
  last_or none = runtime_error
  last_or (some e) = e

  module _ {A W : Type 0} (env : Environment Float W) (p : RetryPolicy Float) where
    -- one round of the `for`: `again` is the rest of the loop, from the next `last_exc`
    pub after_attempt :
        (Error → Bool) → ℕ → (Option Error → W → Result A × W) → Result A → W → Result A × W
    unfolding pause
    after_attempt retryable attempt again (ok a) w = (ok a, w)
    after_attempt retryable attempt again (err e) w =
        if retryable e
        then (if attempt == p.max_attempts - 1
            then (err (last_or (some e)), w)
            else again (some e) (pause env p attempt w))
        else (err e, w)

    -- the `for`, on the rounds left, the number of the attempt, and `last_exc`
    pub attempts : (W → Result A × W) → (Error → Bool) → ℕ → ℕ → Option Error → W → Result A × W
    unfolding after_attempt last_or
    attempts fn retryable zero attempt last w = (err (last_or last), w)
    attempts fn retryable (suc left) attempt last w =
        let again = λ (e : Option Error) (v : W). attempts fn retryable left (attempt + 1) e v in
        let (r, w') = fn w in after_attempt retryable attempt again r w'

    unfoldable pub with_retry : (W → Result A × W) → (Error → Bool) → W → Result A × W
    unfolding attempts
    with_retry fn retryable w = attempts fn retryable p.max_attempts 0 none w
