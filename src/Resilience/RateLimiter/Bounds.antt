-- ===== src/Resilience/RateLimiter/Bounds.antt =====
-- The bucket stays between empty and full, and the long-run rate is enforced.
use athena_ai.Prelude.{ℕ, ◌+◌, ◌-◌, ◌*◌, ◌≤◌, ◌≡◌, true, List, [], ◌∷◌, arith, inl, inr, Bool-cases}
use mathlib.Core.Path.{subst₂}
use athena_ai.Prelude.Floats.{Floats, FloatLaws, min_float, whole}
use athena_ai.Resilience.RateLimiter.{TokenBucket, new, refill, acquire, acquire_all, granted}

module _ (R : Floats) (laws : FloatLaws R) where
  open R use {Float, of_ℕ, add, sub, mul, le}
  open laws use {le_total, le_trans, of_ℕ_nonneg, sub_nonneg, sub_le, add_nonneg, mul_nonneg}

  pub record IsWithin (s : TokenBucket Float) : Type 0 where
    pub not_negative : le (of_ℕ 0) s.tokens ≡ true
    pub not_over : le s.tokens (of_ℕ s.capacity) ≡ true
    pub rate_not_negative : le (of_ℕ 0) s.refill_rate ≡ true

  min_nonneg :
      (a b : Float)
      → le (of_ℕ 0) a ≡ true
      → le (of_ℕ 0) b ≡ true
      → le (of_ℕ 0) (min_float R a b) ≡ true
  min_nonneg a b p q = ground arith

  min_le : (a b : Float) → le (min_float R a b) a ≡ true
  min_le a b = elim (Bool-cases (le a b)) [
    | inl e ↦ rw e (elim (le_total a a) [ inl p ↦ p | inr p ↦ p ])
    | inr e ↦ rw e (elim (le_total a b) [ inl p ↦ cc | inr p ↦ p ])
  ]

  refill-IsWithin :
      (now : Float) (s : TokenBucket Float)
      → le s.last_refill now ≡ true
      → IsWithin s
      → IsWithin (refill R now s)
  unfolding refill
  refill-IsWithin now s later v =
      let gained = mul (sub now s.last_refill) s.refill_rate in
      record {
        not_negative = min_nonneg _ _ (of_ℕ_nonneg s.capacity) (
            add_nonneg s.tokens gained v.not_negative
              (mul_nonneg _ _ (sub_nonneg now s.last_refill later) v.rate_not_negative));
        not_over = min_le _ _;
        rate_not_negative = v.rate_not_negative;
      }

  acquire-IsWithin :
      (now : Float) (n : ℕ) (s : TokenBucket Float)
      → le s.last_refill now ≡ true
      → IsWithin s
      → IsWithin (acquire R now n s).1 × ((acquire R now n s).1.last_refill ≡ now)
  unfolding acquire
  acquire-IsWithin now n s later v =
      let t = refill R now s in
      let w = refill-IsWithin now s later v in
      ground (
        arith,
        w,
        le_total t.tokens (of_ℕ n),
        sub_nonneg t.tokens (of_ℕ n),
        sub_le t.tokens (of_ℕ n) (of_ℕ_nonneg n),
        le_trans (sub t.tokens (of_ℕ n)) t.tokens (of_ℕ s.capacity),
      )

  -- no clock reading is before the one that it follows
  abbrev pub IsAscending : Float → List (Float × ℕ) → Type 0
  IsAscending last [] = Unit
  IsAscending last ((now, n) ∷ cs) = (le last now ≡ true) × IsAscending now cs

  acquire_all-from :
      (cs : List (Float × ℕ)) (s : TokenBucket Float)
      → IsAscending s.last_refill cs
      → IsWithin s
      → IsWithin (acquire_all R cs s)
  unfolding acquire_all
  acquire_all-from [] s later v = v
  acquire_all-from ((now, n) ∷ cs) s later v =
      let (w, e) = acquire-IsWithin now n s later.0 v in
      acquire_all-from cs (acquire R now n s).1 (rw e later.1) w

  -- On floats with the laws of finite doubles, with a clock that does not go back and a refill rate
  -- of at least 0: after any calls, granted or refused, the bucket holds no less than 0 and no more
  -- than its capacity.
  acquire_all-IsWithin :
      (capacity : ℕ) (rate start : Float) (cs : List (Float × ℕ))
      → le (of_ℕ 0) rate ≡ true
      → IsAscending start cs
      → IsWithin (acquire_all R cs (new R capacity rate start))
  unfolding new
  acquire_all-IsWithin capacity rate start cs p later = acquire_all-from cs _ later (record {
    not_negative = of_ℕ_nonneg capacity;
    not_over = elim (le_total (of_ℕ capacity) (of_ℕ capacity)) [ inl q ↦ q | inr q ↦ q ];
    rate_not_negative = p;
  })

abbrev pub end_time : ℕ → List (ℕ × ℕ) → ℕ
end_time last [] = last
end_time last ((now, n) ∷ cs) = end_time now cs

abbrev pub IsAscendingℕ : ℕ → List (ℕ × ℕ) → Type 0
IsAscendingℕ last [] = Unit
IsAscendingℕ last ((now, n) ∷ cs) = (last ≤ now) × IsAscendingℕ now cs

le_end_time : (cs : List (ℕ × ℕ)) (last : ℕ) → IsAscendingℕ last cs → last ≤ end_time last cs
le_end_time [] last h = omega arith
le_end_time ((now, n) ∷ cs) last h = omega (arith, le_end_time cs now h.1)

split_elapsed : (a b c r : ℕ) → a ≤ b → b ≤ c → (c - a) * r ≡ (b - a) * r + (c - b) * r
split_elapsed a b c r p q = let e : c - a ≡ (b - a) + (c - b) = omega arith in rw e (omega arith)

acquire_pays :
    (now n : ℕ) (s : TokenBucket ℕ)
    → granted whole ((now, n) ∷ []) s + (acquire whole now n s).1.tokens
      ≤ s.tokens + (now - s.last_refill) * s.refill_rate
unfolding granted acquire
acquire_pays now n s = ground arith

acquire_keeps :
    (now n : ℕ) (s : TokenBucket ℕ)
    → ((acquire whole now n s).1.last_refill ≡ now)
      × ((acquire whole now n s).1.refill_rate ≡ s.refill_rate)
unfolding acquire
acquire_keeps now n s = ground arith

granted-from :
    (cs : List (ℕ × ℕ)) (s : TokenBucket ℕ)
    → IsAscendingℕ s.last_refill cs
    → granted whole cs s ≤ s.tokens + (end_time s.last_refill cs - s.last_refill) * s.refill_rate
unfolding granted
granted-from [] s h = omega arith
granted-from ((now, n) ∷ cs) s h =
    let c : TokenBucket ℕ = (acquire whole now n s).1 in
    let (e, f) = acquire_keeps now n s in
    let rest =
      subst₂ (λ t r. granted whole cs c ≤ c.tokens + (end_time t cs - t) * r) e f
        (granted-from cs c (rw e h.1)) in
    let cut =
      split_elapsed s.last_refill now (end_time now cs) s.refill_rate h.0
        (le_end_time cs now h.1) in
    omega (arith, rest, cut, acquire_pays now n s)

-- On whole numbers, where the arithmetic is exact: with a clock that does not go back, the calls
-- made from the creation of the limiter on obtain together no more tokens than the capacity and
-- what the refill rate yields over that time.
pub granted-le :
    (capacity rate start : ℕ) (cs : List (ℕ × ℕ))
    → IsAscendingℕ start cs
    → granted whole cs (new whole capacity rate start)
      ≤ capacity + (end_time start cs - start) * rate
unfolding new
granted-le capacity rate start cs h = granted-from cs (new whole capacity rate start) h
