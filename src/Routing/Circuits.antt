-- ===== src/Routing/Circuits.antt =====
-- How the router's reading of a breaker agrees with what the breaker then does.
use athena_ai.Prelude.{◌≡◌, String, true, false, not, some, arith}
use athena_ai.Prelude.Dict.{lookup}
use athena_ai.Prelude.Floats.{Floats, is_zero}
use athena_ai.Resilience.Breaker.{Breaker, open_circuit, is_open, admit, cooled_since}
use athena_ai.Routing.Router.{ModelRouter, is_circuit_open}

module _ (R : Floats) where
  open R use {Float}

  -- For a role with a breaker, the router's two tests together say what is_open says alone.
  is_circuit_open-eq-is_open :
      (now : Float) (r : ModelRouter Float) (role : String) {b : Breaker Float}
      → lookup role r.breakers ≡ some b
      → is_circuit_open R now r role ≡ is_open R now b
  unfolding is_circuit_open is_open
  is_circuit_open-eq-is_open now r role e = ground arith

  -- For a circuit that was opened at a clock reading other than 0, is_open says at each time
  -- whether a call made then would be rejected.
  admit-eq-is_open :
      (now : Float) (b : Breaker Float) {opened : Float}
      → b.opened_at ≡ some opened
      → is_zero R opened ≡ false
      → (admit R now b).1 ≡ not (is_open R now b)
  unfolding admit is_open
  admit-eq-is_open now b at nonzero = ground arith

  -- A circuit opened at the clock reading 0 is reported open at every time, also when the cooldown
  -- is over and a call would be let through as a probe.
  is_open-zero_stamp :
      (now : Float) (b : Breaker Float) {opened : Float}
      → b.state ≡ open_circuit
      → b.opened_at ≡ some opened
      → is_zero R opened ≡ true
      → cooled_since R b.cooldown_s now opened ≡ true
      → (is_open R now b ≡ true) × ((admit R now b).1 ≡ true)
  unfolding admit is_open
  is_open-zero_stamp now b o at zero over = ground arith
