-- ===== src/Resilience/Breaker/Invariant.antt =====
-- What holds of a breaker between two steps, whoever makes them.
use athena_ai.Prelude.{
  ℕ, ◌+◌, ◌<◌, ◌≡◌, Bool, true, false, not, ◌&&◌, Option, none, some, List, [], ◌∷◌, arith,
  if◌then◌else◌,
}
use athena_ai.Prelude.Floats.{Floats}
use athena_ai.Resilience.Breaker.{CircuitState, closed, half_open, Breaker, is_state_open, new}
use athena_ai.Resilience.Breaker.Events.{Event, enter, fail, succeed, step, run}

abbrev pub has_stamp {ℓ} : {A : Type ℓ} → Option A → Bool
has_stamp none = false
has_stamp (some t) = true

abbrev pub is_closed : CircuitState → Bool
is_closed closed = true
is_closed _ = false

pub record IsValid {Time : Type 0} (b : Breaker Time) : Type 0 where
  pub failures_below : b.state ≡ closed → b.failure_count < b.failure_threshold
  pub probes_below : b.state ≡ half_open → b.probe_successes < b.half_open_probe_count
  pub stamped : has_stamp b.opened_at ≡ not (is_closed b.state)
  pub trips : 0 < b.failure_threshold
  pub probes : 0 < b.half_open_probe_count

module _ (R : Floats) where
  open R use {Float}

  pub step-IsValid : (e : Event Float) (b : Breaker Float) → IsValid b → IsValid (step R e b)
  unfolding step
  step-IsValid (enter now) b v = ground arith
  step-IsValid (fail now) b v = ground arith
  step-IsValid succeed b v = ground arith

  pub run_from-IsValid :
      (es : List (Event Float)) (b : Breaker Float) → IsValid b → IsValid (run R es b)
  unfolding run
  run_from-IsValid [] b v = v
  run_from-IsValid (e ∷ es) b v = run_from-IsValid es (step R e b) (step-IsValid e b v)

  -- Whatever steps any number of coroutines make on a new breaker with positive thresholds: while
  -- it is closed, fewer failures than the threshold are on record; while it is half open, fewer
  -- probes have succeeded than close it; and the time of opening is known exactly when the circuit
  -- is not closed.
  pub run-IsValid :
      (threshold probes : ℕ) (cooldown window : Float) (es : List (Event Float))
      → 0 < threshold
      → 0 < probes
      → IsValid (run R es (new R threshold cooldown probes window))
  unfolding new
  run-IsValid threshold probes cooldown window es p q = run_from-IsValid es _ (ground arith)

  abbrev pub opening : CircuitState → CircuitState → ℕ
  opening before after = if is_state_open after && not (is_state_open before) then 1 else 0

  -- Every step adds one to closed_to_open_transitions if it takes the circuit to OPEN from another
  -- state, HALF_OPEN included, and nothing otherwise.
  step_counts_openings :
      (e : Event Float) (b : Breaker Float)
      → (step R e b).transition_count ≡ b.transition_count + opening b.state (step R e b).state
  unfolding step
  step_counts_openings (enter now) b = ground arith
  step_counts_openings (fail now) b = ground arith
  step_counts_openings succeed b = ground arith
