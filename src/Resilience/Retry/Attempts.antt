-- ===== src/Resilience/Retry/Attempts.antt =====
-- `with_retry` over a scripted operation: the outcome of the i-th call is `outcomes i`, and the
-- world counts the calls and keeps the delays slept, newest first.
use mathlib.Core.Path.{subst}
use athena_ai.Prelude.{
  ℕ, zero, suc, ◌+◌, ◌≤◌, ◌<◌, ◌≡◌, refl, ap, Bool, true, false, Option, none, some, List, [], ◌∷◌,
  ◌⊎◌, inl, inr, arith, ◌==◌, nat_eq, Bool-cases,
}
use athena_ai.Prelude.Floats.{Floats}
use athena_ai.Core.Errors.{Error, Result, ok, err, runtime_error}
use athena_ai.Resilience.Retry.{
  RetryPolicy, Environment, pause, after_attempt, attempts, last_or, with_retry,
}

pub record Trace (Time : Type 0) : Type 0 where
  pub made : ℕ
  pub slept : List Time

abbrev pub start : {Time : Type 0} → Trace Time
start = record { made = 0; slept = [] }

abbrev pub is_retried : {A : Type 0} → (Error → Bool) → Result A → Bool
is_retried retryable (ok a) = false
is_retried retryable (err e) = retryable e

module _ {A : Type 0} {Time : Type 0} where
  abbrev pub scripted : (ℕ → Result A) → Trace Time → Result A × Trace Time
  scripted outcomes t = (outcomes t.made, record t { made = t.made + 1 })

abbrev pub recording : {Time : Type 0} → (ℕ → Time → Time) → Environment Time (Trace Time)
recording draw = record {
  uniform = λ d t. (draw t.made d, t);
  sleep = λ d t. record t { slept = d ∷ t.slept };
}

module _ (R : Floats) {A : Type 0} (draw : ℕ → R.Float → R.Float) (p : RetryPolicy R.Float)
    (outcomes : ℕ → Result A) (retryable : Error → Bool) where
  -- the call that settles the result: `j` is the last one made, and every earlier one failed in a
  -- way that is retried
  pub record Settles (m : ℕ) (r : Result A) (t : Trace R.Float) : Type 0 where
    pub last : ℕ
    pub counted : t.made ≡ suc last
    pub bounded : last ≤ m
    pub returned : r ≡ outcomes last
    pub earlier : (i : ℕ) → i < last → is_retried retryable (outcomes i) ≡ true
    pub decisive : (last ≡ m) ⊎ (is_retried retryable (outcomes last) ≡ false)

  made-pause : (k : ℕ) (t : Trace R.Float) → (pause R (recording draw) p k t).made ≡ t.made
  unfolding pause
  made-pause k t = ground arith

  same_index : (i k : ℕ) → (i == k) ≡ true → i ≡ k
  same_index i k h = ground arith

  extend :
      (k : ℕ)
      → ((i : ℕ) → i < k → is_retried retryable (outcomes i) ≡ true)
      → is_retried retryable (outcomes k) ≡ true
      → (i : ℕ) → i < k + 1
      → is_retried retryable (outcomes i) ≡ true
  extend k before now i h = elim (Bool-cases (i == k)) [
    | inl same ↦ rw (same_index i k same) now
    | inr other ↦ before i (ground arith)
  ]

  module _ (again : Option Error → Trace R.Float → Result A × Trace R.Float) where
    -- the last attempt returns what it got
    pub after_last :
        (k : ℕ) (r : Result A) (t : Trace R.Float)
        → p.max_attempts ≡ suc k
        → after_attempt R (recording draw) p retryable k again r t ≡ (r, t)
    unfolding after_attempt last_or
    after_last k (ok a) t full = refl
    after_last k (err e) t full = ground arith

    after_decisive :
        (k : ℕ) (r : Result A) (t : Trace R.Float)
        → is_retried retryable r ≡ false
        → after_attempt R (recording draw) p retryable k again r t ≡ (r, t)
    unfolding after_attempt
    after_decisive k (ok a) t d = refl
    after_decisive k (err e) t d = rw d

    after_again :
        (k : ℕ) (r : Result A) (t : Trace R.Float)
        → is_retried retryable r ≡ true
        → suc k < p.max_attempts
        → (e : Option Error) × (after_attempt R (recording draw) p retryable k again r t
            ≡ again e (pause R (recording draw) p k t))
    unfolding after_attempt
    after_again k (ok a) t d full = cc
    after_again k (err e) t d full = (some e, ground arith)

  abbrev pub called : Trace R.Float → Trace R.Float
  called t = record t { made = t.made + 1 }

  abbrev pub rest : ℕ → ℕ → Option Error → Trace R.Float → Result A × Trace R.Float
  rest left k e v = attempts R (recording draw) p (scripted outcomes) retryable left (k + 1) e v

  settled :
      (k m : ℕ) (t : Trace R.Float)
      → t.made ≡ k
      → k ≤ m
      → ((i : ℕ) → i < k → is_retried retryable (outcomes i) ≡ true)
      → (k ≡ m) ⊎ (is_retried retryable (outcomes k) ≡ false)
      → Settles m (outcomes t.made) (called t)
  settled k m t made h before why = record {
    last = k;
    counted = omega arith;
    bounded = h;
    returned = ap outcomes made;
    earlier = before;
    decisive = why;
  }

  pub unrolled :
      (left k : ℕ) (e : Option Error) (t : Trace R.Float)
      → attempts R (recording draw) p (scripted outcomes) retryable (suc left) k e t
        ≡ after_attempt R (recording draw) p retryable k (rest left k) (outcomes t.made) (called t)
  unfolding attempts
  unrolled left k e t = refl

  attempts-Settles :
      (left k m : ℕ) (e : Option Error) (t : Trace R.Float)
      → t.made ≡ k
      → k + left ≡ m
      → p.max_attempts ≡ suc m
      → ((i : ℕ) → i < k → is_retried retryable (outcomes i) ≡ true)
      → let (r, t') =
          attempts R (recording draw) p (scripted outcomes) retryable (suc left) k e t in
        Settles m r t'
  attempts-Settles zero k m e t made total full before = rw (unrolled zero k e t) (
      rw (after_last (rest zero k) k (outcomes t.made) (called t) (omega arith))
        (settled k m t made (omega arith) before (inl (omega arith))))
  attempts-Settles (suc left) k m e t made total full before =
      rw (unrolled (suc left) k e t) (elim (Bool-cases (is_retried retryable (outcomes t.made))) [
        | inr d ↦
            rw (after_decisive (rest (suc left) k) k (outcomes t.made) (called t) d)
              (settled k m t made (omega arith) before (inr (moved d)))
        | inl d ↦
            let (e', q) =
              after_again (rest (suc left) k) k (outcomes t.made) (called t) d (omega arith) in
            rw q (
              attempts-Settles left (k + 1) m e' (pause R (recording draw) p k (called t))
                (omega (arith, made-pause k (called t))) (omega arith) full
                (extend k before (moved d)))
      ])
    where
      moved :
          {b : Bool}
          → is_retried retryable (outcomes t.made) ≡ b
          → is_retried retryable (outcomes k) ≡ b
      moved {b} d = subst (λ i. is_retried retryable (outcomes i) ≡ b) made d

  -- With at least one attempt, and whatever the delays: the operation is called at most that many
  -- times, and the result is that of the last call made. Every earlier call raised an exception
  -- that is retried; the last one did not, unless it was the last attempt.
  pub with_retry-Settles :
      (m : ℕ)
      → p.max_attempts ≡ suc m
      → let (r, t) = with_retry R (recording draw) p (scripted outcomes) retryable start in
        Settles m r t
  unfolding with_retry
  with_retry-Settles m full =
      simp full
        (attempts-Settles m 0 m none start refl (omega arith) full (λ i h. absurd (omega arith)))

  -- With no attempt at all the operation is not called and RuntimeError is raised.
  with_retry-zero :
      p.max_attempts ≡ 0
      → with_retry R (recording draw) p (scripted outcomes) retryable start
        ≡ (err runtime_error, start)
  unfolding with_retry last_or
  with_retry-zero empty = rw empty
