-- ===== src/Routing/Scorer.antt =====
-- src/athenai/routing/scorer.py
use athena_ai.Prelude.{Bool, String, List, if◌then◌else◌, select}
use athena_ai.Prelude.Floats.{Floats, zero_float, lt, min_float}
use athena_ai.Prelude.Sorting.{sorted_desc}
use athena_ai.Routing.Policies.{RoutingPolicy}

pub record ModelMetadata (Float : Type 0) : Type 0 where
  pub role : String
  pub quality_score : Float
  pub cost_per_1k_tokens : Float
  pub avg_latency_ms : Float
  pub is_available : Bool

module _ (R : Floats) where
  open R use {Float, decimal, of_ℕ, neg, add, mul, div, le}

  -- `1.0 / x if x > 0 else 1.0`
  inverse : Float → Float
  inverse x = if lt R (zero_float R) x then div (of_ℕ 1) x else of_ℕ 1

  unfoldable pub score : RoutingPolicy Float → ModelMetadata Float → Float
  unfolding inverse
  score p m =
      let cost_norm = min_float R (div (inverse m.cost_per_1k_tokens) (of_ℕ 100)) (of_ℕ 1) in
      let latency_norm = min_float R (div (inverse m.avg_latency_ms) (decimal 1 2)) (of_ℕ 1) in
      if m.is_available
      then add (add (mul m.quality_score p.quality_weight) (mul cost_norm p.cost_weight))
          (mul latency_norm p.latency_weight)
      else neg (of_ℕ 1)

  unfoldable pub rank :
      RoutingPolicy Float → List (ModelMetadata Float) → List (ModelMetadata Float)
  rank p models = sorted_desc le (score p) (select (λ m. m.is_available) models)
