-- ===== src/Routing/Router.antt =====
-- src/athenai/routing/router.py. The clock readings of one `select`, which does not await, are
-- taken as one.
use athena_ai.Prelude.{
  ℕ, String, Bool, true, false, not, ◌&&◌, Option, none, some, List, [], ◌∷◌, ◌==◌, string_eq, ltb,
  if◌then◌else◌, select,
}
use athena_ai.Prelude.Dict.{Dict, lookup}
use athena_ai.Prelude.Floats.{Floats, max_float}
use athena_ai.Core.Errors.{Result, ok, err, ◌>>=◌, athena, model_unavailable, index_error}
use athena_ai.Core.Types.{RoutingContext}
use athena_ai.Resilience.Breaker.{Breaker, is_state_open, is_open}
use athena_ai.Routing.Policies.{RoutingPolicy, default_policy}
use athena_ai.Routing.Scorer.{ModelMetadata, rank}

pub data Complexity : Type 0 where
  low medium high : Complexity

pub record RoutingDecision (Float : Type 0) : Type 0 where
  pub selected_role : String
  pub reason : String
  pub estimated_cost_usd : Float
  pub complexity : Complexity

unfoldable pub classify_complexity : ℕ → Complexity
classify_complexity tokens =
    if ltb tokens 500 then low else if ltb tokens 2000 then medium else high

-- `_ROLE_FOR_COMPLEXITY`
abbrev pub role_for : Complexity → String
role_for low = "fast"
role_for medium = "default"
role_for high = "reasoning"

-- the text is the same for every policy and every breaker
abbrev pub reason_for : Complexity → String
reason_for low = "complexity=LOW, policy=default, circuit=CLOSED"
reason_for medium = "complexity=MEDIUM, policy=default, circuit=CLOSED"
reason_for high = "complexity=HIGH, policy=default, circuit=CLOSED"

abbrev pub is_medium : Complexity → Bool
is_medium medium = true
is_medium _ = false

pub record ModelRouter (Float : Type 0) : Type 0 where
  pub catalog : List (ModelMetadata Float)
  pub breakers : Dict (Breaker Float)

module _ (R : Floats) where
  open R use {Float, decimal, of_ℕ, mul, div}

  unfoldable pub is_circuit_open : Float → ModelRouter Float → String → Bool
  is_circuit_open now r role = elim (lookup role r.breakers) [
    | none ↦ false
    | some b ↦ is_state_open b.state && is_open R now b
  ]

  -- the test of the comprehension that builds `available`
  unfoldable pub is_usable : Float → ModelRouter Float → ModelMetadata Float → Bool
  unfolding is_circuit_open
  is_usable now r m = m.is_available && not (is_circuit_open now r m.role)

  -- `next((m for m in available if m.role == preferred_role), None)`
  unfoldable pub first_with_role :
      String → List (ModelMetadata Float) → Option (ModelMetadata Float)
  first_with_role role [] = none
  first_with_role role (m ∷ ms) = if m.role == role then some m else first_with_role role ms

  -- `ranked[0]`
  unfoldable pub first_of_ranked : List (ModelMetadata Float) → Result (ModelMetadata Float)
  first_of_ranked [] = err index_error
  first_of_ranked (m ∷ ms) = ok m

  unfoldable pub choose :
      RoutingPolicy Float → Complexity → List (ModelMetadata Float) → Result (ModelMetadata Float)
  unfolding first_with_role first_of_ranked
  choose p c available = elim (first_with_role (role_for c) available) [
    | none ↦ first_of_ranked (rank R p available)
    | some preferred ↦ if is_medium c then first_of_ranked (rank R p available) else ok preferred
  ]

  unfoldable pub decide : RoutingContext → Complexity → ModelMetadata Float → RoutingDecision Float
  decide context c best = record {
    selected_role = best.role;
    reason = reason_for c;
    estimated_cost_usd =
        max_float R (decimal 1 4)
          (mul (div (of_ℕ context.estimated_input_tokens) (of_ℕ 1000)) best.cost_per_1k_tokens);
    complexity = c;
  }

  unfoldable pub policy_or_default : Option (RoutingPolicy Float) → RoutingPolicy Float
  policy_or_default none = default_policy R
  policy_or_default (some p) = p

  unfoldable pub select_from :
      RoutingContext
      → RoutingPolicy Float
      → Complexity
      → List (ModelMetadata Float)
      → Result (RoutingDecision Float)
  unfolding choose decide
  select_from context p c [] = err (athena model_unavailable)
  select_from context p c (m ∷ ms) = do best ← choose p c (m ∷ ms); ok (decide context c best)

  unfoldable pub select_model :
      Float
      → ModelRouter Float
      → RoutingContext
      → Option (RoutingPolicy Float)
      → Result (RoutingDecision Float)
  unfolding select_from is_usable policy_or_default classify_complexity
  select_model now r context policy =
      select_from context (policy_or_default policy)
        (classify_complexity context.estimated_input_tokens) (select (is_usable now r) r.catalog)
