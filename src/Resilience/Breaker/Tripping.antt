-- ===== src/Resilience/Breaker/Tripping.antt =====
-- Opening, staying open for the cooldown, and recovering.
use athena_ai.Prelude.{
  ℕ, zero, suc, ◌+◌, ◌<◌, ◌≡◌, refl, true, false, none, some, List, [], ◌∷◌, map, arith,
  if◌then◌else◌, leb, length, replicate, All,
}
use athena_ai.Prelude.Floats.{Floats}
use athena_ai.Core.Errors.{Result, err, athena, circuit_open}
use athena_ai.Resilience.Breaker.{
  closed, open_circuit, half_open, Breaker, new, cooled, cooled_since, call,
}
use athena_ai.Resilience.Breaker.Events.{Event, enter, fail, succeed, step, run, admissions}

module _ (R : Floats) where
  open R use {Float}

  fail_open :
      (ts : List Float) (b : Breaker Float) → b.state ≡ open_circuit → run R (map fail ts) b ≡ b
  unfolding run step
  fail_open [] b o = refl
  fail_open (t ∷ ts) b o = ground (arith, fail_open ts b o)

  fails_from :
      (ts : List Float) (b : Breaker Float)
      → b.state ≡ closed
      → b.failure_count < b.failure_threshold
      → let c = run R (map fail ts) b in
        let trips = leb b.failure_threshold (b.failure_count + length ts) in
        (c.state ≡ (if trips then open_circuit else closed))
        × (c.transition_count ≡ b.transition_count + (if trips then 1 else 0))
  unfolding run step
  fails_from [] b o h = ground arith
  fails_from (t ∷ ts) b o h =
      let c = step R (fail t) b in ground (arith, fail_open ts c, fails_from ts c)

  -- A new breaker with a positive threshold that sees only failures is open after them exactly if
  -- they are as many as the threshold, closed otherwise, and counts exactly one transition if it
  -- opened, however many failures arrive.
  pub fails_trip_once :
      (threshold probes : ℕ) (cooldown window : Float) (ts : List Float)
      → 0 < threshold
      → let c = run R (map fail ts) (new R threshold cooldown probes window) in
        let trips = leb threshold (length ts) in
        (c.state ≡ (if trips then open_circuit else closed))
        × (c.transition_count ≡ (if trips then 1 else 0))
  unfolding new
  fails_trip_once threshold probes cooldown window ts p =
      ground (arith, fails_from ts (new R threshold cooldown probes window))

  -- an event that comes before the cooldown since `opened` is over
  abbrev pub IsEarly : Float → Float → Event Float → Type 0
  IsEarly cooldown opened (enter now) = cooled_since R cooldown now opened ≡ false
  IsEarly cooldown opened (fail now) = Unit
  IsEarly cooldown opened succeed = Unit

  step_early :
      (e : Event Float) (b : Breaker Float) {opened : Float}
      → b.state ≡ open_circuit
      → b.opened_at ≡ some opened
      → IsEarly b.cooldown_s opened e
      → (step R e b ≡ b) × (admissions R (e ∷ []) b ≡ 0)
  unfolding step admissions
  step_early (enter now) b o at early = ground arith
  step_early (fail now) b o at early = ground arith
  step_early succeed b o at early = ground arith

  -- From OPEN, until the cooldown is over: no call is let through, and no step of any coroutine
  -- changes the breaker.
  open_circuit_holds :
      (es : List (Event Float)) (b : Breaker Float) {opened : Float}
      → b.state ≡ open_circuit
      → b.opened_at ≡ some opened
      → All (IsEarly b.cooldown_s opened) es
      → (run R es b ≡ b) × (admissions R es b ≡ 0)
  unfolding run admissions
  open_circuit_holds [] b o at early = (refl, refl)
  open_circuit_holds (e ∷ es) b o at early =
      ground (arith, step_early e b o at early.0, open_circuit_holds es b o at early.1)

  -- Before the cooldown is over call raises CircuitOpenError and neither runs fn nor changes the
  -- breaker.
  call-open :
      {A W : Type 0} (now later : Float) (fn : Breaker Float → W → Result A × Breaker Float × W)
      (b : Breaker Float) (w : W)
      → b.state ≡ open_circuit
      → cooled R b.cooldown_s now b.opened_at ≡ false
      → call R now later fn b w ≡ (err (athena circuit_open), b, w)
  unfolding call
  call-open now later fn b w o early = ground arith

  succeeds_from :
      (n : ℕ) (b : Breaker Float)
      → b.state ≡ half_open
      → b.probe_successes + suc n ≡ b.half_open_probe_count
      → let c = run R (replicate (suc n) succeed) b in
        (c.state ≡ closed) × (c.failure_count ≡ 0) × (c.opened_at ≡ none)
  unfolding run step
  succeeds_from zero b o e = ground arith
  succeeds_from (suc n) b o e = ground (arith, succeeds_from n (step R succeed b))

  -- Once the cooldown is over, one call that enters and as many successes as there are probes to
  -- pass close the circuit, with no failure on record.
  pub recovers :
      (now : Float) (n : ℕ) (b : Breaker Float)
      → b.state ≡ open_circuit
      → cooled R b.cooldown_s now b.opened_at ≡ true
      → b.half_open_probe_count ≡ suc n
      → let c = run R (enter now ∷ replicate (suc n) succeed) b in
        (c.state ≡ closed) × (c.failure_count ≡ 0) × (c.opened_at ≡ none)
  unfolding run step
  recovers now n b o over e = ground (arith, succeeds_from n (step R (enter now) b))

  -- A failed probe opens the circuit again for a whole cooldown from its own time, whatever the
  -- failure count.
  probe_fails :
      (now : Float) (b : Breaker Float)
      → b.state ≡ half_open
      → let c = step R (fail now) b in (c.state ≡ open_circuit) × (c.opened_at ≡ some now)
  unfolding step
  probe_fails now b o = ground arith

  half_open_admits :
      (n : ℕ) (now : Float) (b : Breaker Float)
      → b.state ≡ half_open
      → admissions R (replicate n (enter now)) b ≡ n
  unfolding admissions
  half_open_admits zero now b o = refl
  half_open_admits (suc n) now b o = ground (arith, half_open_admits n now b o)

  -- Once the cooldown is over, every one of any number of calls that enter before the first of them
  -- has ended is let through, not only as many as there are probes.
  cooled_admits_all :
      (n : ℕ) (now : Float) (b : Breaker Float)
      → b.state ≡ open_circuit
      → cooled R b.cooldown_s now b.opened_at ≡ true
      → admissions R (replicate n (enter now)) b ≡ n
  unfolding admissions
  cooled_admits_all zero now b o over = refl
  cooled_admits_all (suc n) now b o over =
      ground (arith, half_open_admits n now (step R (enter now) b))
