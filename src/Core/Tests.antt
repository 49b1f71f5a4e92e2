-- ===== src/Core/Tests.antt =====
-- A run of the lifespan.
use athena_ai.Prelude.{ℕ, List, [], ◌∷◌, ◌++◌, ◌≡◌, refl}
use athena_ai.Prelude.Dict.{Dict}
use athena_ai.Core.Errors.{Result, ok, err, key_error, runtime_error}
use athena_ai.Core.Lifecycle.{
  Component, lifespan, settings, Recorded, neither, only_aclose, both, Called, by_close, registered,
  closings, lifespan-closes,
}

-- the first one raises, and the last one has nothing to close
abbrev components : Dict Recorded
components =
    (
      "model_registry",
      record {
        name = 2;
        methods = both;
        close_outcome = err runtime_error;
        aclose_outcome = ok tt;
      },
    )
    ∷ (
      "runtime",
      record { name = 3; methods = only_aclose; close_outcome = ok tt; aclose_outcome = ok tt },
    )
    ∷ (
      "memory",
      record { name = 4; methods = neither; close_outcome = ok tt; aclose_outcome = ok tt },
    )
    ∷ []

-- a body that registers them and then raises
abbrev failing :
    Dict (Component (List Called))
    → List Called
    → Result ℕ × Dict (Component (List Called)) × List Called
failing registry log = (err key_error, registry ++ registered components, log ++ by_close 7 ∷ [])

lifespan-closes_example :
    lifespan settings failing [] ≡ (err key_error, (by_close 7 ∷ []) ++ closings components)
lifespan-closes_example =
    lifespan-closes failing components [] (by_close 7 ∷ []) (err key_error) refl
