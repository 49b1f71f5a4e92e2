-- ===== src/Routing/Policies.antt =====
-- src/athenai/routing/policies.py
use athena_ai.Prelude.Floats.{Floats}

pub record RoutingPolicy (Float : Type 0) : Type 0 where
  pub quality_weight : Float
  pub cost_weight : Float
  pub latency_weight : Float
  -- advisory: the scorer reads neither
  pub max_cost_usd : Float
  pub max_latency_ms : Float

module _ (R : Floats) where
  open R use {Float, decimal, of_ℕ}

  -- `cls(quality_weight=..., cost_weight=..., latency_weight=...)` with the other fields' defaults
  abbrev weighted : Float → Float → Float → RoutingPolicy Float
  weighted quality cost latency = record {
    quality_weight = quality;
    cost_weight = cost;
    latency_weight = latency;
    max_cost_usd = decimal 10 2;
    max_latency_ms = of_ℕ 5000;
  }

  unfoldable pub default_policy : RoutingPolicy Float
  default_policy = weighted (decimal 4 1) (decimal 3 1) (decimal 3 1)

  unfoldable pub cost_optimized : RoutingPolicy Float
  cost_optimized = weighted (decimal 2 1) (decimal 6 1) (decimal 2 1)

  unfoldable pub quality_optimized : RoutingPolicy Float
  quality_optimized = weighted (decimal 7 1) (decimal 1 1) (decimal 2 1)
