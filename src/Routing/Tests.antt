-- ===== src/Routing/Tests.antt =====
-- Runs of the router.
use athena_ai.Prelude.{ℕ, ◌≡◌, ◌⊎◌, true, false, none, some, [], ◌∷◌, All, codes}
use athena_ai.Prelude.Floats.{fixed, fixed_laws}
use athena_ai.Core.Errors.{ok, err, athena, model_unavailable}
use athena_ai.Core.Types.{RoutingContext}
use athena_ai.Resilience.Breaker.{Breaker, open_circuit}
use athena_ai.Routing.Scorer.{ModelMetadata}
use athena_ai.Routing.Router.{ModelRouter, RoutingDecision, is_usable, select_model}
use athena_ai.Routing.Selection.{Selected, select_model-Selected}

-- opened at 10 seconds for 30
abbrev tripped : Breaker ℕ
tripped = record {
  failure_threshold = 2;
  cooldown_s = 30000000;
  half_open_probe_count = 2;
  window_s = 60000000;
  state = open_circuit;
  failure_count = 2;
  opened_at = some 10000000;
  probe_successes = 0;
  transition_count = 1;
}

abbrev fast_model : ModelMetadata ℕ
fast_model = record {
  role = "fast";
  quality_score = 600000;
  cost_per_1k_tokens = 1000;
  avg_latency_ms = 200000000;
  is_available = true;
}

abbrev default_model : ModelMetadata ℕ
default_model = record fast_model {
  role = "default";
  quality_score = 900000;
  avg_latency_ms = 500000000;
}

-- the circuit of the fast model is open
abbrev router : ModelRouter ℕ
router = record { catalog = fast_model ∷ default_model ∷ []; breakers = ("fast", tripped) ∷ [] }

abbrev short_request : RoutingContext
short_request = record {
  request_id = "r1";
  user_id = "u1";
  estimated_input_tokens = 120;
  task_description = codes "chat";
  complexity = "low";
}

select_model-Selected_example :
    ((select_model fixed 20000000 router short_request none ≡ err (athena model_unavailable))
      × All (λ m. is_usable fixed 20000000 router m ≡ false) router.catalog)
    ⊎ ((d : RoutingDecision ℕ) × (select_model fixed 20000000 router short_request none ≡ ok d)
        × Selected fixed fixed_laws 20000000 router short_request none d)
select_model-Selected_example =
    select_model-Selected fixed fixed_laws 20000000 router short_request none
