-- ===== src/Resilience/Tests.antt =====
-- Runs of the resilience components.
use athena_ai.Prelude.{
  ℕ, zero, suc, ◌+◌, ◌-◌, ◌*◌, ◌≤◌, ◌≡◌, refl, Bool, true, none, some, List, [], ◌∷◌, map, arith,
  replicate, length, leb, if◌then◌else◌,
}
use athena_ai.Prelude.Floats.{fixed_laws, fixed, whole}
use athena_ai.Core.Errors.{Error, Result, ok, err, timeout}
use athena_ai.Resilience.Breaker
use athena_ai.Resilience.Breaker.{Breaker, closed, open_circuit, half_open, call}
use athena_ai.Resilience.Breaker.Events.{Event, enter, fail, succeed, run, admissions}
use athena_ai.Resilience.Breaker.Invariant.{IsValid, run-IsValid}
use athena_ai.Resilience.Breaker.Tripping.{fails_trip_once, recovers}
use athena_ai.Resilience.Breaker.Refinement.{
  Policy, counting, phase_of, run_phase, count_through, run-refines,
}
use athena_ai.Resilience.RateLimiter
use athena_ai.Resilience.RateLimiter.{acquire_all, granted}
use athena_ai.Resilience.RateLimiter.Bounds.{granted-le, end_time}
use athena_ai.Resilience.Retry.{RetryPolicy, with_retry}
use athena_ai.Resilience.Retry.Delays.{IsPaced, with_retry-IsPaced}
use athena_ai.Resilience.Retry.Attempts.{start, scripted, recording, Settles, with_retry-Settles}

-- a breaker that has opened at the second failure, for 30 seconds, and closes after two probes
abbrev tripped : Breaker ℕ
tripped = record {
  failure_threshold = 2;
  cooldown_s = 30;
  half_open_probe_count = 2;
  window_s = 60;
  state = open_circuit;
  failure_count = 2;
  opened_at = some 10;
  probe_successes = 0;
  transition_count = 1;
}

abbrev failure_times : List ℕ
failure_times = 3 ∷ 5 ∷ 8 ∷ []

run-IsValid_example : IsValid (
    run whole (fail 3 ∷ fail 10 ∷ enter 20 ∷ enter 45 ∷ succeed ∷ []) (Breaker.new whole 2 30 2 60))
run-IsValid_example =
    run-IsValid whole 2 2 30 60 (fail 3 ∷ fail 10 ∷ enter 20 ∷ enter 45 ∷ succeed ∷ [])
      (omega arith) (omega arith)

-- two failures open the circuit, a call is refused, and two probes close it
abbrev history : List (Event ℕ)
history = fail 3 ∷ fail 10 ∷ enter 20 ∷ enter 45 ∷ succeed ∷ succeed ∷ []

abbrev policy : Policy ℕ
policy = record { threshold = 2; probes = 2; cooldown = 30 }

run-refines_example :
    (phase_of whole (run whole history (Breaker.new whole 2 30 2 60))
      ≡ run_phase whole policy history (counting 0))
    × (admissions whole history (Breaker.new whole 2 30 2 60)
        ≡ count_through whole policy history (counting 0))
run-refines_example = run-refines whole 2 2 30 60 history (omega arith) (omega arith)

fails_trip_once_example :
    let c = run whole (map fail failure_times) (Breaker.new whole 2 30 2 60) in
    let trips = leb 2 (length failure_times) in
    (c.state ≡ (if trips then open_circuit else closed))
    × (c.transition_count ≡ (if trips then 1 else 0))
fails_trip_once_example = fails_trip_once whole 2 2 30 60 failure_times (omega arith)

recovers_example :
    let c = run whole (enter 40 ∷ replicate 2 succeed) tripped in
    (c.state ≡ closed) × (c.failure_count ≡ 0) × (c.opened_at ≡ none)
recovers_example = recovers whole 40 1 tripped refl refl refl

granted-le_example :
    granted whole ((1, 3) ∷ (4, 9) ∷ (4, 5) ∷ []) (RateLimiter.new whole 5 2 1)
    ≤ 5 + (end_time 1 ((1, 3) ∷ (4, 9) ∷ (4, 5) ∷ []) - 1) * 2
granted-le_example =
    granted-le 5 2 1 ((1, 3) ∷ (4, 9) ∷ (4, 5) ∷ []) (omega arith, (omega arith, (omega arith, tt)))

abbrev three_times : RetryPolicy ℕ
three_times = record {
  max_attempts = 3;
  base_delay_s = 100000;
  max_delay_s = 10000000;
  jitter = true;
}

-- the first call times out and the second answers
abbrev flaky : ℕ → Result ℕ
flaky zero = err timeout
flaky (suc k) = ok 7

abbrev any_error : Error → Bool
any_error e = true

-- a draw of the shortest delay
abbrev least : ℕ → ℕ → ℕ
least k d = 0

with_retry-Settles_example :
    let (r, t) = with_retry fixed (recording least) three_times (scripted flaky) any_error start in
    Settles fixed least three_times flaky any_error 2 r t
with_retry-Settles_example = with_retry-Settles fixed least three_times flaky any_error 2 refl

least_below :
    (k : ℕ) (d : ℕ) → (leb 0 d ≡ true) → (leb 0 (least k d) ≡ true) × (leb (least k d) d ≡ true)
least_below k d h = (ground arith, ground arith)

with_retry-IsPaced_example :
    IsPaced fixed fixed_laws least three_times flaky any_error
      (with_retry fixed (recording least) three_times (scripted flaky) any_error start).1
with_retry-IsPaced_example =
    with_retry-IsPaced fixed fixed_laws least three_times flaky any_error least_below refl refl 2
      refl
