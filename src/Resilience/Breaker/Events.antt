-- ===== src/Resilience/Breaker/Events.antt =====
-- What any number of coroutines do to one shared breaker: a list of atomic steps, in the order in
-- which they take the lock. A call is an `enter` and, if it was let through, a later `succeed` or
-- `fail`; `record_success` and `record_failure` may also be called on their own.
use athena_ai.Prelude.{ℕ, ◌+◌, List, [], ◌∷◌, if◌then◌else◌}
use athena_ai.Prelude.Floats.{Floats}
use athena_ai.Resilience.Breaker.{Breaker, admit, record_failure, record_success}

pub data Event (Time : Type 0) : Type 0 where
  enter : Time → Event Time
  fail : Time → Event Time
  succeed : Event Time

module _ (R : Floats) where
  open R use {Float}

  unfoldable pub step : Event Float → Breaker Float → Breaker Float
  unfolding admit record_failure record_success
  step (enter now) b = (admit R now b).0
  step (fail now) b = record_failure R now b
  step succeed b = record_success R b

  unfoldable pub run : List (Event Float) → Breaker Float → Breaker Float
  run [] b = b
  run (e ∷ es) b = run es (step e b)

  unfoldable pub goes_through : Event Float → Breaker Float → ℕ
  goes_through (enter now) b = if (admit R now b).1 then 1 else 0
  goes_through (fail now) b = 0
  goes_through succeed b = 0

  -- how many of the calls that enter are let through to the dependency
  unfoldable pub admissions : List (Event Float) → Breaker Float → ℕ
  unfolding goes_through step
  admissions [] b = 0
  admissions (e ∷ es) b = goes_through e b + admissions es (step e b)
