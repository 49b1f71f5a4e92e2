-- ===== src/Resilience/RateLimiter.antt =====
-- src/athenai/resilience/rate_limiter.py. `acquire` holds the lock from the clock reading to the
-- deduction, so a call is one atomic step; the reading is an argument.
pub mod Bounds
use athena_ai.Prelude.{ℕ, List, [], ◌∷◌, ◌+◌, if◌then◌else◌}
use athena_ai.Prelude.Floats.{Floats, lt, min_float}
use athena_ai.Core.Errors.{Result, ok, err, athena, rate_limit}

pub record TokenBucket (Float : Type 0) : Type 0 where
  pub capacity : ℕ
  pub refill_rate : Float
  pub tokens : Float
  pub last_refill : Float

module _ (R : Floats) where
  open R use {Float, of_ℕ, add, sub, mul}

  -- `TokenBucketRateLimiter.__init__`
  unfoldable pub new : ℕ → Float → Float → TokenBucket Float
  new capacity rate now = record {
    capacity = capacity;
    refill_rate = rate;
    tokens = of_ℕ capacity;
    last_refill = now;
  }

  -- the first half of `acquire`
  unfoldable pub refill : Float → TokenBucket Float → TokenBucket Float
  refill now s =
      let gained = mul (sub now s.last_refill) s.refill_rate in
      record s { tokens = min_float R (of_ℕ s.capacity) (add s.tokens gained); last_refill = now }

  unfoldable pub acquire : Float → ℕ → TokenBucket Float → Result (Unit {0}) × TokenBucket Float
  unfolding refill
  acquire now n s =
      let t = refill now s in
      if lt R t.tokens (of_ℕ n)
      then (err (athena rate_limit), t)
      else (ok tt, record t { tokens = sub t.tokens (of_ℕ n) })

  -- the calls of all coroutines in the order in which they take the lock, each with its clock
  -- reading and the tokens that it asks for
  unfoldable pub acquire_all : List (Float × ℕ) → TokenBucket Float → TokenBucket Float
  acquire_all [] s = s
  acquire_all ((now, n) ∷ cs) s = acquire_all cs (acquire now n s).1

  granted_by : Result (Unit {0}) → ℕ → ℕ
  granted_by (ok _) n = n
  granted_by (err _) n = 0

  -- how many tokens those calls obtain together
  unfoldable pub granted : List (Float × ℕ) → TokenBucket Float → ℕ
  unfolding granted_by
  granted [] s = 0
  granted ((now, n) ∷ cs) s = granted_by (acquire now n s).0 n + granted cs (acquire now n s).1
