-- ===== src/Context/Budget.antt =====
-- src/athenai/context/budget.py. Limits and requests are ints that callers give as at least 0.
pub mod Ceilings
pub mod Buckets
use athena_ai.Prelude.{
  ℕ, ◌+◌, ◌-◌, String, Option, none, some, List, [], ◌∷◌, ◌==◌, nat_eq, string_eq, ltb,
  if◌then◌else◌,
}
use athena_ai.Prelude.Dict.{Dict, lookup, get_or, insert}
use athena_ai.Core.Errors.{Result, ok, err, athena, context_overflow}

pub record TokenBudgetManager : Type 0 where
  pub allocations : Dict ℕ
  pub used : Dict ℕ
  pub total : ℕ

-- `dict.fromkeys(allocations, 0)`
abbrev pub all_zero : Dict ℕ → Dict ℕ
all_zero [] = []
all_zero ((k, v) ∷ d) = (k, 0) ∷ all_zero d

-- `sum(v for k, v in d.items() if k != "total")`
abbrev pub sum_buckets : Dict ℕ → ℕ
sum_buckets [] = 0
sum_buckets ((k, v) ∷ d) = (if k == "total" then 0 else v) + sum_buckets d

unfoldable pub new : Dict ℕ → TokenBudgetManager
new allocations = record {
  allocations = allocations;
  used = all_zero allocations;
  total = get_or "total" (sum_buckets allocations) allocations;
}

unfoldable pub total_used : TokenBudgetManager → ℕ
total_used m = sum_buckets m.used

unfoldable pub allocate : String → ℕ → TokenBudgetManager → Result ℕ × TokenBudgetManager
unfolding total_used
allocate key tokens m =
    let bucket_limit = get_or key 0 m.allocations in
    let current = get_or key 0 m.used in
    if bucket_limit == 0
    then (err (athena context_overflow), m)
    else if ltb bucket_limit (current + tokens)
    then (err (athena context_overflow), m)
    else if ltb m.total (total_used m + tokens)
    then (err (athena context_overflow), m)
    else (ok tokens, record m { used = insert key (current + tokens) m.used })

unfoldable pub remaining : String → TokenBudgetManager → ℕ
remaining key m = get_or key 0 m.allocations - get_or key 0 m.used

unfoldable pub reset : TokenBudgetManager → TokenBudgetManager
reset m = record m { used = all_zero m.allocations }

pub data Request : Type 0 where
  ask : String → ℕ → Request
  start_over : Request

-- a caller's sequence of calls on one manager
unfoldable pub serve : List Request → TokenBudgetManager → TokenBudgetManager
serve [] m = m
serve (ask key tokens ∷ rs) m = serve rs (allocate key tokens m).1
serve (start_over ∷ rs) m = serve rs (reset m)
