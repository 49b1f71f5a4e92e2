-- ===== src/Resilience/Retry/Delays.antt =====
-- The delays between the attempts of `with_retry`.
use athena_ai.Prelude.{
  ℕ, zero, suc, ◌+◌, ◌-◌, ◌^◌, ◌==◌, nat_eq, ◌≡◌, refl, Bool, true, Option, none, inl, inr, arith,
  Bool-cases, All, length,
}
use athena_ai.Prelude.Floats.{Floats, FloatLaws}
use athena_ai.Core.Errors.{Error, Result, ok, err}
use athena_ai.Resilience.Retry.{RetryPolicy, backoff, pause, after_attempt, attempts, with_retry}
use athena_ai.Resilience.Retry.Attempts.{
  Trace, start, scripted, recording, called, rest, unrolled, after_last,
}

module _ (R : Floats) (laws : FloatLaws R) {A : Type 0} (draw : ℕ → R.Float → R.Float)
    (p : RetryPolicy R.Float) (outcomes : ℕ → Result A) (retryable : Error → Bool) where
  open R use {Float, of_ℕ, mul, le}
  open laws use {le_total, le_trans, of_ℕ_nonneg, mul_nonneg}

  -- `random.uniform(0, d)` lies between 0 and `d`
  abbrev pub DrawsBelow : Type 0
  DrawsBelow =
      (k : ℕ) (d : Float)
      → (le (of_ℕ 0) d ≡ true)
      → (le (of_ℕ 0) (draw k d) ≡ true) × (le (draw k d) d ≡ true)

  abbrev pub IsDelay : Float → Type 0
  IsDelay d = (le (of_ℕ 0) d ≡ true) × (le d p.max_delay_s ≡ true)

  le_refl : (a : Float) → le a a ≡ true
  le_refl a = elim (le_total a a) [ inl h ↦ h | inr h ↦ h ]

  backoff-IsDelay :
      (k : ℕ)
      → le (of_ℕ 0) p.base_delay_s ≡ true
      → le (of_ℕ 0) p.max_delay_s ≡ true
      → IsDelay (backoff R p k)
  unfolding backoff
  backoff-IsDelay k base top =
      let grown = mul p.base_delay_s (of_ℕ (2 ^ k)) in
      let nonneg = mul_nonneg p.base_delay_s (of_ℕ (2 ^ k)) base (of_ℕ_nonneg (2 ^ k)) in
      elim (Bool-cases (le grown p.max_delay_s)) [
        | inl h ↦ rw h (nonneg, h)
        | inr h ↦ rw h (top, le_refl p.max_delay_s)
      ]

  pub record IsPaced (t : Trace Float) : Type 0 where
    pub within : All IsDelay t.slept
    pub each : t.made ≡ suc (length t.slept)

  module _ (draws : DrawsBelow) (base : le (of_ℕ 0) p.base_delay_s ≡ true)
      (top : le (of_ℕ 0) p.max_delay_s ≡ true) where
    -- after a wait, before the next call
    abbrev IsReady : Trace Float → Type 0
    IsReady t = All IsDelay t.slept × (t.made ≡ length t.slept)

    pause-IsReady : (k : ℕ) (t : Trace Float) → IsPaced t → IsReady (pause R (recording draw) p k t)
    unfolding pause
    pause-IsReady k t v =
        let d = backoff-IsDelay k base top in
        let (low, high) = draws t.made (backoff R p k) d.0 in
        elim (Bool-cases p.jitter) [
          | inl j ↦ rw j (((low, le_trans _ _ _ high d.1), v.within), v.each)
          | inr j ↦ rw j ((d, v.within), v.each)
        ]

    called-IsPaced : (t : Trace Float) → IsReady t → IsPaced (called R draw p outcomes retryable t)
    called-IsPaced t v = record { within = v.0; each = omega (arith, v.1) }

    after-IsPaced :
        (k : ℕ) (r : Result A) (t : Trace Float)
        (again : Option Error → Trace Float → Result A × Trace Float)
        → ((e : Option Error) (v : Trace Float) → IsReady v → IsPaced (again e v).1)
        → IsPaced t
        → IsPaced (after_attempt R (recording draw) p retryable k again r t).1
    unfolding after_attempt
    after-IsPaced k (ok a) t again keep v = v
    after-IsPaced k (err e) t again keep v = elim (Bool-cases (retryable e)) [
      | inr h ↦ rw h v
      | inl h ↦ rw h (elim (Bool-cases (k == p.max_attempts - 1)) [
        | inl l ↦ rw l v
        | inr l ↦ rw l (keep _ _ (pause-IsReady k t v))
      ])
    ]

    attempts-IsPaced :
        (left k m : ℕ) (e : Option Error) (t : Trace Float)
        → k + left ≡ m
        → p.max_attempts ≡ suc m
        → IsReady t
        → IsPaced (attempts R (recording draw) p (scripted outcomes) retryable (suc left) k e t).1
    attempts-IsPaced zero k m e t total full v =
        let again = rest R draw p outcomes retryable zero k in
        let t' = called R draw p outcomes retryable t in
        rw (unrolled R draw p outcomes retryable zero k e t) (
          rw (after_last R draw p outcomes retryable again k (outcomes t.made) t' (omega arith))
            (called-IsPaced t v))
    attempts-IsPaced (suc left) k m e t total full v =
        rw (unrolled R draw p outcomes retryable (suc left) k e t) (
          after-IsPaced k (outcomes t.made) _ _
            (λ e' w ready. attempts-IsPaced left (k + 1) m e' w (omega arith) full ready)
            (called-IsPaced t v))

    -- On floats with the laws of finite doubles, with a base delay and a cap that are not negative
    -- and draws between 0 and their argument: with at least one attempt there is exactly one delay
    -- between two calls, and every delay lies between 0 and max_delay_s, jitter or not.
    pub with_retry-IsPaced :
        (m : ℕ)
        → p.max_attempts ≡ suc m
        → IsPaced (with_retry R (recording draw) p (scripted outcomes) retryable start).1
    unfolding with_retry
    with_retry-IsPaced m full =
        simp full (attempts-IsPaced m 0 m none start (omega arith) full (tt, refl))
