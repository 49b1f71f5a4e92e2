-- ===== src/Context/Budget/Ceilings.antt =====
-- No bucket and no total ever passes its ceiling, and a refusal changes nothing.
use text.Mathlib.TextEquality.{eq_iff}
use athena_ai.Prelude.{
  ℕ, ◌+◌, ◌≤◌, ◌<◌, ◌≡◌, ◌≢◌, ◌⊎◌, refl, String, List, [], ◌∷◌, inl, inr, arith, ◌==◌, nat_eq,
  string_eq, ltb, if◌then◌else◌, Bool-cases,
}
use athena_ai.Prelude.Dict.{Dict, get_or, insert, lookup-insert}
use athena_ai.Core.Errors.{ok, err, athena, context_overflow}
use athena_ai.Context.Budget.{
  TokenBudgetManager, all_zero, sum_buckets, new, total_used, allocate, remaining, reset, Request,
  ask, start_over, serve,
}

get_or-insert :
    (k j : String) (v : ℕ) (d : Dict ℕ)
    → get_or j 0 (insert k v d) ≡ (if k == j then v else get_or j 0 d)
get_or-insert k j v d = ground (arith, lookup-insert k j v d)

pub sum_buckets-insert :
    (k : String) (v : ℕ) (d : Dict ℕ)
    → sum_buckets (insert k v d) + (if k == "total" then 0 else get_or k 0 d)
      ≡ sum_buckets d + (if k == "total" then 0 else v)
sum_buckets-insert k v [] = ground arith
sum_buckets-insert k v ((i, w) ∷ d) =
    ground (arith, eq_iff i k, eq_iff i "total", eq_iff k "total", sum_buckets-insert k v d)

sum_buckets-all_zero : (d : Dict ℕ) → sum_buckets (all_zero d) ≡ 0
sum_buckets-all_zero [] = refl
sum_buckets-all_zero ((k, v) ∷ d) = ground (arith, sum_buckets-all_zero d)

get_or-all_zero : (k : String) (d : Dict ℕ) → get_or k 0 (all_zero d) ≡ 0
get_or-all_zero k [] = refl
get_or-all_zero k ((j, v) ∷ d) = ground (arith, get_or-all_zero k d)

pub record IsWithin (m : TokenBudgetManager) : Type 0 where
  pub bucket : (k : String) → get_or k 0 m.used ≤ get_or k 0 m.allocations
  pub overall : total_used m ≤ m.total

pub allocate-IsWithin :
    (key : String) (tokens : ℕ) (m : TokenBudgetManager)
    → IsWithin m
    → IsWithin (allocate key tokens m).1
unfolding allocate
allocate-IsWithin key tokens m v = record {
  bucket = λ k. ground (
    arith,
    eq_iff key k,
    v.bucket k,
    v.bucket key,
    get_or-insert key k (get_or key 0 m.used + tokens) m.used,
  );
  overall = ground (arith, v.overall, sum_buckets-insert key (get_or key 0 m.used + tokens) m.used);
}

pub reset-IsWithin : (m : TokenBudgetManager) → IsWithin (reset m)
unfolding reset total_used
reset-IsWithin m = record {
  bucket = λ k. omega (arith, get_or-all_zero k m.allocations);
  overall = omega (arith, sum_buckets-all_zero m.allocations);
}

pub serve-from : (rs : List Request) (m : TokenBudgetManager) → IsWithin m → IsWithin (serve rs m)
unfolding serve
serve-from [] m v = v
serve-from (ask key tokens ∷ rs) m v =
    serve-from rs (allocate key tokens m).1 (allocate-IsWithin key tokens m v)
serve-from (start_over ∷ rs) m v = serve-from rs (reset m) (reset-IsWithin m)

-- After any sequence of allocate and reset calls on a new manager, granted or refused, no bucket
-- has used more than its limit, and the buckets other than "total" together no more than the total.
pub serve-IsWithin :
    (allocations : Dict ℕ) (rs : List Request) → IsWithin (serve rs (new allocations))
unfolding new
serve-IsWithin allocations rs =
    serve-from rs (new allocations) (unfold reset in reset-IsWithin (new allocations))

-- On a manager within its limits, allocate refuses with ContextOverflowError and leaves the manager
-- as it was, exactly when the bucket has no budget or the tokens do not fit in the bucket or in the
-- total; otherwise it returns the tokens asked for, takes them from what remains of that bucket,
-- and leaves what remains of every other bucket.
allocate_lem :
    (key : String) (tokens : ℕ) (m : TokenBudgetManager)
    → IsWithin m
    → let (r, m') = allocate key tokens m in
      ((r ≡ err (athena context_overflow))
        × (m' ≡ m)
        × ((get_or key 0 m.allocations ≡ 0)
            ⊎ (remaining key m < tokens)
            ⊎ (m.total < total_used m + tokens)))
      ⊎ ((r ≡ ok tokens)
          × (remaining key m' + tokens ≡ remaining key m)
          × ((k : String) → k ≢ key → remaining k m' ≡ remaining k m))
unfolding allocate remaining
allocate_lem key tokens m v = elim (Bool-cases (get_or key 0 m.allocations == 0)) [
  | inl none_given ↦ rw none_given (inl (refl, refl, inl (ground arith)))
  | inr given ↦
      rw given
        (elim (Bool-cases (ltb (get_or key 0 m.allocations) (get_or key 0 m.used + tokens))) [
          | inl full ↦ rw full (inl (refl, refl, inr (inl (ground (arith, v.bucket key)))))
          | inr fits ↦ rw fits (elim (Bool-cases (ltb m.total (total_used m + tokens))) [
            | inl over ↦ rw over (inl (refl, refl, inr (inr (ground arith))))
            | inr under ↦ rw under (
                inr (
                  refl,
                  ground (
                    arith,
                    v.bucket key,
                    get_or-insert key key (get_or key 0 m.used + tokens) m.used,
                    eq_iff key key,
                  ),
                  λ k other. ground (
                    arith,
                    eq_iff key k,
                    get_or-insert key k (get_or key 0 m.used + tokens) m.used,
                  ),
                ))
          ])
        ])
]

-- Tokens taken from a bucket named "total" never show in the total used.
allocate-total :
    (tokens : ℕ) (m : TokenBudgetManager) → total_used (allocate "total" tokens m).1 ≡ total_used m
unfolding allocate
allocate-total tokens m =
    ground (arith, sum_buckets-insert "total" (get_or "total" 0 m.used + tokens) m.used)
