-- ===== src/Models/Registry.antt =====
-- src/athenai/models/registry.py. `backend` makes the adapter of a built model, over the HTTP clients.
use text.Mathlib.TextEquality.{eq_iff}
use athena_ai.Prelude.{
  ◌≡◌, refl, ◌∙◌, String, Text, codes, Bool, true, false, Option, none, some, List, [], ◌∷◌, ◌==◌,
  string_eq, if◌then◌else◌, arith, Bool-cases, inl, inr, ap, sym,
}
use athena_ai.Prelude.Dict.{Dict, lookup, get_or, contains, insert, keys, lookup-insert}
use athena_ai.Prelude.Texts.{text_eq}
use athena_ai.Core.Errors.{Result, ok, err, ◌>>=◌, >>=-eq-ok, key_error, value_error}
use athena_ai.Models.Base.{Model}
use athena_ai.Models.Mock.{MockModel}
use athena_ai.Models.Cloud.{CloudModel}
use athena_ai.Models.Local.{LocalModel}

pub data AnyModel : Type 0 where
  mock : MockModel → AnyModel
  cloud : CloudModel → AnyModel
  local : LocalModel → AnyModel

-- a role's config dict
abbrev pub Config : Type 0
Config = Dict Text

build_mock : Text → AnyModel
build_mock name = mock (record { name = name; healthy = true })

build_cloud : Text → Config → AnyModel
build_cloud name config = cloud (record {
  api_key = get_or "api_key" [] config;
  model_name = name;
  base_url = get_or "base_url" (codes "https://api.anthropic.com/v1/messages") config;
})

build_local : Text → Config → AnyModel
build_local name config = local (record {
  model_name = name;
  base_url = get_or "base_url" (codes "http://localhost:11434") config;
})

-- `_build_model`
unfoldable pub build_model : Config → Result AnyModel
unfolding build_mock build_cloud build_local
build_model config =
    let model_type = get_or "type" (codes "mock") config in
    let name = get_or "name" (codes "unknown") config in
    if text_eq model_type (codes "mock")
    then ok (build_mock name)
    else if text_eq model_type (codes "cloud")
    then ok (build_cloud name config)
    else if text_eq model_type (codes "local")
    then ok (build_local name config)
    else err value_error

abbrev pub ModelRegistry : Type 0
ModelRegistry = Dict AnyModel

-- the loop of `__init__`
unfoldable pub build_all : ModelRegistry → Dict Config → Result ModelRegistry
build_all models [] = ok models
build_all models ((role, config) ∷ rest) =
    build_model config >>= λ m. build_all (insert role m models) rest

-- `ModelRegistry.__init__`
unfoldable pub new : Dict Config → Result ModelRegistry
unfolding build_all
new registry_config = build_all [] registry_config

unfoldable pub register : String → AnyModel → ModelRegistry → ModelRegistry
register role m models = insert role m models

unfoldable pub get : String → ModelRegistry → Result AnyModel
get role models = elim (lookup role models) [ none ↦ err key_error | some m ↦ ok m ]

unfoldable pub list_roles : ModelRegistry → List String
list_roles models = keys models

module _ {W : Type 0} (backend : AnyModel → Model W) where
  health_of : Result AnyModel → W → Result Bool × W
  health_of (err e) w = (err e, w)
  health_of (ok m) w = let (healthy, w') = (backend m).health_check w in (ok healthy, w')

  -- `ModelRegistry.health_check`
  unfoldable pub health_check : String → ModelRegistry → W → Result Bool × W
  unfolding health_of
  health_check role models w = health_of (get role models) w

  -- `ModelRegistry.health_check_all`
  unfoldable pub health_check_all : ModelRegistry → W → Dict Bool × W
  health_check_all [] w = ([], w)
  health_check_all ((role, m) ∷ models) w =
      let (healthy, w') = (backend m).health_check w in
      let (rest, w'') = health_check_all models w' in ((role, healthy) ∷ rest, w'')

  -- every role is asked, in order
  keys-health_check_all :
      (models : ModelRegistry) (w : W) → keys (health_check_all models w).0 ≡ keys models
  unfolding health_check_all
  keys-health_check_all [] w = refl
  keys-health_check_all ((role, m) ∷ models) w =
      rw (keys-health_check_all models ((backend m).health_check w).1)

-- no key stands twice, as in a dict
abbrev pub AreDistinct {ℓ} : {V : Type ℓ} → Dict V → Type 0
AreDistinct [] = Unit
AreDistinct ((k, _) ∷ d) = (contains k d ≡ false) × AreDistinct d

-- what a role should be
abbrev pub configured : Option Config → Result AnyModel → Result AnyModel
configured none old = old
configured (some config) old = build_model config

lookup-absent : {V : Type 0} (k : String) (d : Dict V) → contains k d ≡ false → lookup k d ≡ none
lookup-absent k d h = ground arith

-- a read of a role after a registration
get-register :
    (r role : String) (m : AnyModel) (models : ModelRegistry)
    → get role (register r m models) ≡ (if r == role then ok m else get role models)
unfolding get register
get-register r role m models = ground (arith, lookup-insert r role m models)

get-build_all :
    (models : ModelRegistry) (config : Dict Config) (role : String) {made : ModelRegistry}
    → AreDistinct config
    → build_all models config ≡ ok made
    → get role made ≡ configured (lookup role config) (get role models)
unfolding build_all register
get-build_all models [] role {made} d e = let same : made ≡ models = cc in rw same refl
get-build_all models ((r, c) ∷ rest) role {made} d e =
    let (m, built, others) =
      >>=-eq-ok (build_model c) (λ m. build_all (insert r m models) rest) e in
    let after = get-build_all (insert r m models) rest role d.1 others in
    let added = get-register r role m models in
    elim (Bool-cases (r == role)) [
      | inl same ↦
          let absent : lookup role rest ≡ none =
            lookup-absent role rest
              (ap (λ k. contains k rest) (sym ((eq_iff r role).0 same)) ∙ d.0) in
          let last : get role made ≡ get role (insert r m models) =
            after ∙ ap (λ o. configured o (get role (insert r m models))) absent in
          rw same (last ∙ (added ∙ rw same refl) ∙ sym built)
      | inr other ↦ rw other (after ∙ ap (configured (lookup role rest)) (added ∙ rw other refl))
    ]

-- A registry that is built from a config whose roles are distinct has, under each role, the model
-- that the config of the role describes, and raises KeyError for a role that the config lacks.
get-new :
    (config : Dict Config) (role : String) {models : ModelRegistry}
    → AreDistinct config
    → new config ≡ ok models
    → get role models ≡ configured (lookup role config) (err key_error)
unfolding new get
get-new config role d e = get-build_all [] config role d e
