-- ===== src/Context/Budget/Buckets.antt =====
-- Where the total covers the buckets, a bucket never takes from what another may use.
use text.Mathlib.TextEquality.{eq_iff}
use athena_ai.Prelude.{
  ℕ, ◌+◌, ◌≤◌, ◌<◌, ◌≡◌, ◌≢◌, ◌↔◌, refl, String, List, [], ◌∷◌, arith, ◌==◌, nat_eq, string_eq, ltb,
  Bool-cases, inl, inr,
}
use athena_ai.Prelude.Dict.{Dict, get_or, insert}
use athena_ai.Core.Errors.{ok}
use athena_ai.Context.Budget.Ceilings.{IsWithin, serve-IsWithin, sum_buckets-insert}
use athena_ai.Context.Budget.{
  TokenBudgetManager, all_zero, sum_buckets, new, total_used, allocate, remaining, reset, Request,
  ask, start_over, serve,
}

-- under the same keys, no number is above its limit
abbrev IsUnder : Dict ℕ → Dict ℕ → Type 0
IsUnder [] [] = Unit
IsUnder [] (l ∷ ls) = ⊥
IsUnder (u ∷ us) [] = ⊥
IsUnder ((k, u) ∷ us) ((j, l) ∷ ls) = (k ≡ j) × (u ≤ l) × IsUnder us ls

all_zero-IsUnder : (limits : Dict ℕ) → IsUnder (all_zero limits) limits
all_zero-IsUnder [] = tt
all_zero-IsUnder ((k, l) ∷ ls) = (refl, omega arith, all_zero-IsUnder ls)

sum_buckets-le :
    (used limits : Dict ℕ) → IsUnder used limits → sum_buckets used ≤ sum_buckets limits
sum_buckets-le [] [] h = omega arith
sum_buckets-le [] (l ∷ ls) h = absurd h
sum_buckets-le (u ∷ us) [] h = absurd h
sum_buckets-le ((k, u) ∷ us) ((j, l) ∷ ls) h = ground (arith, sum_buckets-le us ls h.2)

insert-IsUnder :
    (key : String) (n : ℕ) (used limits : Dict ℕ)
    → IsUnder used limits
    → n ≤ get_or key 0 limits
    → 0 < get_or key 0 limits
    → IsUnder (insert key n used) limits
insert-IsUnder key n [] [] h e p = absurd (omega (arith, p))
insert-IsUnder key n [] (l ∷ ls) h e p = absurd h
insert-IsUnder key n (u ∷ us) [] h e p = absurd h
insert-IsUnder key n ((k, u) ∷ us) ((j, l) ∷ ls) h e p = rw h.0 (elim (Bool-cases (j == key)) [
  | inl hit ↦ let e' : n ≤ l = (ground arith) in rw hit (refl, e', h.2)
  | inr miss ↦
      let e' : n ≤ get_or key 0 ls = (ground arith) in
      let p' : 0 < get_or key 0 ls = (ground arith) in
      rw miss (refl, h.1, insert-IsUnder key n us ls h.2 e' p')
])

-- the total covers the limits of the buckets, and these the tokens used
record IsCovered (m : TokenBudgetManager) : Type 0 where
  under : IsUnder m.used m.allocations
  covers : sum_buckets m.allocations ≤ m.total

allocate-IsCovered :
    (key : String) (tokens : ℕ) (m : TokenBudgetManager)
    → IsCovered m
    → IsCovered (allocate key tokens m).1
unfolding allocate
allocate-IsCovered key tokens m c = elim (Bool-cases (get_or key 0 m.allocations == 0)) [
  | inl none_given ↦ rw none_given c
  | inr given ↦
      rw given
        (elim (Bool-cases (ltb (get_or key 0 m.allocations) (get_or key 0 m.used + tokens))) [
          | inl full ↦ rw full c
          | inr fits ↦ rw fits (elim (Bool-cases (ltb m.total (total_used m + tokens))) [
            | inl over ↦ rw over c
            | inr room ↦ rw room (record {
              under =
                  insert-IsUnder key (get_or key 0 m.used + tokens) m.used m.allocations c.under
                    (ground arith) (ground arith);
              covers = c.covers;
            })
          ])
        ])
]

reset-IsCovered : (m : TokenBudgetManager) → IsCovered m → IsCovered (reset m)
unfolding reset
reset-IsCovered m c = record { under = all_zero-IsUnder m.allocations; covers = c.covers }

serve-IsCovered :
    (rs : List Request) (m : TokenBudgetManager) → IsCovered m → IsCovered (serve rs m)
unfolding serve
serve-IsCovered [] m c = c
serve-IsCovered (ask key tokens ∷ rs) m c =
    serve-IsCovered rs (allocate key tokens m).1 (allocate-IsCovered key tokens m c)
serve-IsCovered (start_over ∷ rs) m c = serve-IsCovered rs (reset m) (reset-IsCovered m c)

allocate-granted :
    (key : String) (tokens : ℕ) (m : TokenBudgetManager)
    → IsCovered m
    → IsWithin m
    → key ≢ "total"
    → ((allocate key tokens m).0 ≡ ok tokens)
      ↔ ((0 < get_or key 0 m.allocations) × (tokens ≤ remaining key m))
unfolding allocate remaining total_used
allocate-granted key tokens m c v other = (
  λ h. (ground arith, ground (arith, v.bucket key)),
  λ (given, room).
      let n = get_or key 0 m.used + tokens in
      let fits : n ≤ get_or key 0 m.allocations = omega (arith, v.bucket key) in
      let below =
        sum_buckets-le (insert key n m.used) m.allocations
          (insert-IsUnder key n m.used m.allocations c.under fits given) in
      ground (arith, eq_iff key "total", sum_buckets-insert key n m.used, c.covers),
)

-- For limits whose "total" is at least the sum of the others, or is absent: after any sequence of
-- calls, a request from a bucket other than "total" is granted exactly if the bucket has a limit and
-- the request is no more than what remains of that bucket, whatever the other buckets have used.
pub allocate-own_bucket :
    (limits : Dict ℕ) (rs : List Request) (key : String) (tokens : ℕ)
    → sum_buckets limits ≤ get_or "total" (sum_buckets limits) limits
    → key ≢ "total"
    → let m = serve rs (new limits) in
      ((allocate key tokens m).0 ≡ ok tokens)
      ↔ ((0 < get_or key 0 m.allocations) × (tokens ≤ remaining key m))
allocate-own_bucket limits rs key tokens covers other =
    allocate-granted key tokens (serve rs (new limits))
      (serve-IsCovered rs (new limits)
        (unfold new in record { under = all_zero-IsUnder limits; covers = covers }))
      (serve-IsWithin limits rs) other
