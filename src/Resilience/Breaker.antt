-- ===== src/Resilience/Breaker.antt =====
-- src/athenai/resilience/circuit_breaker.py. Every method that writes holds the breaker's lock
-- throughout, so it is one atomic step; the clock reading of a step is an argument.
pub mod Events
pub mod Invariant
pub mod Refinement
pub mod Tripping
use athena_ai.Prelude.{
  ℕ, zero, suc, ◌+◌, Bool, true, false, not, ◌&&◌, Option, none, some, leb, if◌then◌else◌,
}
use athena_ai.Prelude.Floats.{Floats, is_zero}
use athena_ai.Core.Errors.{Error, Result, ok, err, athena, circuit_open}

pub data CircuitState : Type 0 where
  closed open_circuit half_open : CircuitState

-- The thresholds are ints that a deployment sets to at least 0.
pub record Breaker (Time : Type 0) : Type 0 where
  pub failure_threshold : ℕ
  pub cooldown_s : Time
  pub half_open_probe_count : ℕ
  pub window_s : Time
  pub state : CircuitState
  pub failure_count : ℕ
  pub opened_at : Option Time
  pub probe_successes : ℕ
  pub transition_count : ℕ

abbrev pub is_state_open : CircuitState → Bool
is_state_open open_circuit = true
is_state_open _ = false

module _ (R : Floats) where
  open R use {Float, sub, le}

  -- `CircuitBreaker.__init__`
  unfoldable pub new : ℕ → Float → ℕ → Float → Breaker Float
  new threshold cooldown probes window = record {
    failure_threshold = threshold;
    cooldown_s = cooldown;
    half_open_probe_count = probes;
    window_s = window;
    state = closed;
    failure_count = 0;
    opened_at = none;
    probe_successes = 0;
    transition_count = 0;
  }

  -- `time.monotonic() - self._opened_at >= self.cooldown_s`
  abbrev pub cooled_since : Float → Float → Float → Bool
  cooled_since cooldown now opened = le cooldown (sub now opened)

  -- `self._opened_at and ...`: a float is false where it is zero
  abbrev cooled_if_truthy : Float → Float → Option Float → Bool
  cooled_if_truthy cooldown now none = false
  cooled_if_truthy cooldown now (some t) = not (is_zero R t) && cooled_since cooldown now t

  -- `self._opened_at is not None and ...`
  abbrev pub cooled : Float → Float → Option Float → Bool
  cooled cooldown now none = false
  cooled cooldown now (some t) = cooled_since cooldown now t

  is_open_in : CircuitState → Float → Breaker Float → Bool
  is_open_in closed now b = false
  is_open_in open_circuit now b = not (cooled_if_truthy b.cooldown_s now b.opened_at)
  is_open_in half_open now b = false

  unfoldable pub is_open : Float → Breaker Float → Bool
  unfolding is_open_in
  is_open now b = is_open_in b.state now b

  unfoldable pub maybe_transition_to_half_open : Float → Breaker Float → Breaker Float
  maybe_transition_to_half_open now b =
      if is_state_open b.state && cooled b.cooldown_s now b.opened_at
      then record b { state = half_open; probe_successes = 0 }
      else b

  -- the writes that open the circuit, from either state
  abbrev trip : Float → Breaker Float → Breaker Float
  trip now b = record b {
    state = open_circuit;
    opened_at = some now;
    transition_count = b.transition_count + 1;
  }

  record_failure_in : CircuitState → Float → Breaker Float → Breaker Float
  record_failure_in half_open now b = trip now b
  record_failure_in open_circuit now b = b
  record_failure_in closed now b =
      let c = record b { failure_count = b.failure_count + 1 } in
      if leb b.failure_threshold (b.failure_count + 1) then trip now c else c

  unfoldable pub record_failure : Float → Breaker Float → Breaker Float
  unfolding record_failure_in
  record_failure now b = record_failure_in b.state now b

  record_success_in : CircuitState → Breaker Float → Breaker Float
  record_success_in half_open b =
      let c = record b { probe_successes = b.probe_successes + 1 } in
      if leb b.half_open_probe_count (b.probe_successes + 1)
      then record c { state = closed; failure_count = 0; opened_at = none }
      else c
  record_success_in closed b = record b { failure_count = 0 }
  record_success_in open_circuit b = b

  unfoldable pub record_success : Breaker Float → Breaker Float
  unfolding record_success_in
  record_success b = record_success_in b.state b

  -- the start of `call`, up to the `await fn()`: whether the call goes through
  unfoldable pub admit : Float → Breaker Float → Breaker Float × Bool
  unfolding maybe_transition_to_half_open
  admit now b = let c = maybe_transition_to_half_open now b in (c, not (is_state_open c.state))

  -- the end of `call`, once `fn` has returned or raised
  unfoldable pub settle {ℓ} : {A : Type ℓ} → Float → Result A → Breaker Float → Breaker Float
  unfolding record_success record_failure
  settle now (ok a) b = record_success b
  settle now (err e) b = record_failure now b

  -- `fn` acts on a world of its own, and on the breaker, by way of the other tasks that run while
  -- it is awaited.
  unfoldable pub call {ℓ κ} :
      {A : Type ℓ} {W : Type κ}
      → Float
      → Float
      → (Breaker Float → W → Result A × Breaker Float × W)
      → Breaker Float
      → W
      → Result A × Breaker Float × W
  unfolding admit settle
  call now later fn b w =
      let (c, goes) = admit now b in
      let (r, d, w') = fn c w in
      if goes then (r, settle later r d, w') else (err (athena circuit_open), c, w)
