-- ===== src/Models/Tests.antt =====
-- A registry that is built from a config.
use athena_ai.Prelude.{codes, true, ◌≡◌, refl, [], ◌∷◌}
use athena_ai.Prelude.Dict.{Dict}
use athena_ai.Core.Errors.{ok}
use athena_ai.Models.Registry.{
  Config, ModelRegistry, AnyModel, mock, build_model, build_all, get, configured,
}
use athena_ai.Models.Registry as Registry
use athena_ai.Core.Config.{defaults}

abbrev named : Config
named = ("type", codes "mock") ∷ ("name", codes "mock-fast") ∷ []

abbrev config : Dict Config
config = ("default", []) ∷ ("fast", named) ∷ []

abbrev models : ModelRegistry
models =
    ("default", mock (record { name = codes "unknown"; healthy = true }))
    ∷ ("fast", mock (record { name = codes "mock-fast"; healthy = true }))
    ∷ []

built : Registry.new config ≡ ok models
unfolding Registry.new build_all build_model
built = refl

-- the models of the default settings
default_models :
    Registry.new defaults.model_registry
    ≡ ok (
        ("default", mock (record { name = codes "mock-default"; healthy = true }))
        ∷ ("fast", mock (record { name = codes "mock-fast"; healthy = true }))
        ∷ ("reasoning", mock (record { name = codes "mock-reasoning"; healthy = true }))
        ∷ [])
unfolding Registry.new build_all build_model
default_models = refl
