-- ===== src/Resilience/Breaker/Refinement.antt =====
-- The circuit breaker as an abstract machine of three phases, without flags, stamps or counters that are
-- out of use, and the record of src/athenai/resilience/circuit_breaker.py as an implementation of it.
use mathlib.Core.Path.{ap₂}
use athena_ai.Prelude.{
  ℕ, ◌+◌, ◌<◌, ◌≡◌, refl, ◌∙◌, Option, none, some, List, [], ◌∷◌, leb, arith, if◌then◌else◌,
}
use athena_ai.Prelude.Floats.{Floats}
use athena_ai.Resilience.Breaker.{
  CircuitState, closed, open_circuit, half_open, Breaker, new, cooled_since,
}
use athena_ai.Resilience.Breaker.Events.{
  Event, enter, fail, succeed, step, run, goes_through, admissions,
}
use athena_ai.Resilience.Breaker.Invariant.{IsValid, step-IsValid}

-- the calls go through and failures are counted; they are refused since a time; probes go through and
-- successes are counted
pub data Phase (Time : Type 0) : Type 0 where
  counting : ℕ → Phase Time
  refusing : Time → Phase Time
  probing : ℕ → Phase Time

pub record Policy (Time : Type 0) : Type 0 where
  pub threshold : ℕ
  pub probes : ℕ
  pub cooldown : Time

module _ (R : Floats) where
  open R use {Float}

  -- what an event makes of a phase
  pub next_phase : Policy Float → Event Float → Phase Float → Phase Float
  next_phase p (enter now) (refusing since) =
      if cooled_since R p.cooldown now since then probing 0 else refusing since
  next_phase p (enter now) phase = phase
  next_phase p (fail now) (counting n) =
      if leb p.threshold (n + 1) then refusing now else counting (n + 1)
  next_phase p (fail now) (refusing since) = refusing since
  next_phase p (fail now) (probing k) = refusing now
  next_phase p succeed (counting n) = counting 0
  next_phase p succeed (refusing since) = refusing since
  next_phase p succeed (probing k) = if leb p.probes (k + 1) then counting 0 else probing (k + 1)

  -- the calls that a phase lets through
  pub lets_through : Policy Float → Event Float → Phase Float → ℕ
  lets_through p (enter now) (refusing since) = if cooled_since R p.cooldown now since then 1 else 0
  lets_through p (enter now) _ = 1
  lets_through p (fail now) _ = 0
  lets_through p succeed _ = 0

  pub run_phase : Policy Float → List (Event Float) → Phase Float → Phase Float
  run_phase p [] phase = phase
  run_phase p (e ∷ es) phase = run_phase p es (next_phase p e phase)

  pub count_through : Policy Float → List (Event Float) → Phase Float → ℕ
  count_through p [] phase = 0
  count_through p (e ∷ es) phase =
      lets_through p e phase + count_through p es (next_phase p e phase)

  policy_of : Breaker Float → Policy Float
  policy_of b = record {
    threshold = b.failure_threshold;
    probes = b.half_open_probe_count;
    cooldown = b.cooldown_s;
  }

  opened : Option Float → Phase Float
  opened none = counting 0
  opened (some t) = refusing t

  phase_in : CircuitState → Breaker Float → Phase Float
  unfolding opened
  phase_in closed b = counting b.failure_count
  phase_in open_circuit b = opened b.opened_at
  phase_in half_open b = probing b.probe_successes

  -- the phase that a breaker is in
  pub phase_of : Breaker Float → Phase Float
  unfolding phase_in
  phase_of b = phase_in b.state b

  step-phase :
      (e : Event Float) (b : Breaker Float)
      → IsValid b
      → (phase_of (step R e b) ≡ next_phase (policy_of b) e (phase_of b))
        × (goes_through R e b ≡ lets_through (policy_of b) e (phase_of b))
        × (policy_of (step R e b) ≡ policy_of b)
  unfolding step goes_through phase_of next_phase lets_through policy_of
  step-phase (enter now) b v = ground (arith)
  step-phase (fail now) b v = ground (arith)
  step-phase succeed b v = ground (arith)

  run-phase :
      (es : List (Event Float)) (b : Breaker Float)
      → IsValid b
      → (phase_of (run R es b) ≡ run_phase (policy_of b) es (phase_of b))
        × (admissions R es b ≡ count_through (policy_of b) es (phase_of b))
  unfolding run admissions run_phase count_through
  run-phase [] b v = (refl, refl)
  run-phase (e ∷ es) b v =
      let (next, through, kept) = step-phase e b v in
      let (last, total) = run-phase es (step R e b) (step-IsValid R e b v) in
      (
        last ∙ ap₂ (λ p ph. run_phase p es ph) kept next,
        ap₂ (λ n m. n + m) through (total ∙ ap₂ (λ p ph. count_through p es ph) kept next),
      )

  -- The circuit breaker implements the three-phase machine: after any steps of any coroutines on a new
  -- breaker with positive thresholds it is in the phase that the machine is in after the same events,
  -- and it has let as many calls through.
  pub run-refines :
      (threshold probes : ℕ) (cooldown window : Float) (es : List (Event Float))
      → 0 < threshold
      → 0 < probes
      → let policy : Policy Float = record {
        threshold = threshold;
        probes = probes;
        cooldown = cooldown;
      } in
        (phase_of (run R es (new R threshold cooldown probes window))
          ≡ run_phase policy es (counting 0))
        × (admissions R es (new R threshold cooldown probes window)
            ≡ count_through policy es (counting 0))
  unfolding new phase_of policy_of
  run-refines threshold probes cooldown window es p q =
      run-phase es (new R threshold cooldown probes window) (ground arith)
