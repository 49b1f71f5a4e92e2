-- ===== src/Core/Config.antt =====
-- src/athenai/core/config.py: the settings with their defaults. pydantic reads them from the environment
-- and a file; a number of seconds is kept as the text of its literal.
use athena_ai.Prelude.{ℕ, String, Text, codes, List, [], ◌∷◌}
use athena_ai.Prelude.Dict.{Dict}

pub record AthenaConfig : Type 0 where
  pub log_level : String
  pub environment : String
  pub db_url : Text
  pub db_pool_size : ℕ
  pub redis_url : Text
  pub anthropic_api_key : Text
  pub anthropic_base_url : Text
  -- a model config for each role
  pub model_registry : Dict (Dict Text)
  -- the most tokens of each bucket
  pub token_budget : Dict ℕ
  pub max_concurrent_model_calls : ℕ
  pub allowed_http_domains : List Text
  pub circuit_breaker_failure_threshold : ℕ
  pub circuit_breaker_cooldown_s : String
  pub retry_max_attempts : ℕ
  pub retry_base_delay_s : String
  pub request_timeout_s : String
  pub response_cache_ttl_s : ℕ
  pub agent_max_iterations : ℕ

abbrev mock_config : Text → Dict Text
mock_config name = ("type", codes "mock") ∷ ("name", name) ∷ []

-- `AthenaConfig()` where nothing is set
abbrev pub defaults : AthenaConfig
defaults = record {
  log_level = "INFO";
  environment = "development";
  db_url = codes "postgresql://localhost:5432/athenai";
  db_pool_size = 10;
  redis_url = codes "redis://localhost:6379/0";
  anthropic_api_key = [];
  anthropic_base_url = codes "https://api.anthropic.com";
  model_registry =
      ("default", mock_config (codes "mock-default"))
      ∷ ("fast", mock_config (codes "mock-fast"))
      ∷ ("reasoning", mock_config (codes "mock-reasoning"))
      ∷ [];
  token_budget =
      ("system", 1000)
      ∷ ("conversation", 4000)
      ∷ ("memory", 1000)
      ∷ ("rag", 3000)
      ∷ ("tools", 500)
      ∷ ("reserved", 500)
      ∷ ("total", 10000)
      ∷ [];
  max_concurrent_model_calls = 10;
  allowed_http_domains = [];
  circuit_breaker_failure_threshold = 5;
  circuit_breaker_cooldown_s = "30.0";
  retry_max_attempts = 3;
  retry_base_delay_s = "0.5";
  request_timeout_s = "30.0";
  response_cache_ttl_s = 300;
  agent_max_iterations = 10;
}
