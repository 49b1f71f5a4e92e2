-- ===== src/Gateway/Startup.antt =====
-- What src/athenai/gateway/app.py has built when the lifespan yields.
use text.Mathlib.TextEquality.{eq_iff}
use athena_ai.Prelude.{
  ℕ, ◌≡◌, refl, sym, ap, ◌∙◌, String, Text, Bool, true, false, Option, none, List, [], ◌==◌,
  string_eq, if◌then◌else◌, Bool-cases, inl, inr, ◌≢◌, ◌⊎◌,
}
use athena_ai.Prelude.Dict.{get_or}
use athena_ai.Core.Errors.{Result, ok, err, ◌>>=◌, key_error, type_error}
use athena_ai.Models.Wire.{Client}
use athena_ai.Models.Cloud as Cloud
use athena_ai.Models.Local as Local
use athena_ai.Agents.Trace.{Output, Host}
use athena_ai.Tools.Registry.{Tool, register, get, get-register}
use athena_ai.Rag.Embedder.{CloudEmbedder, new}
use athena_ai.Rag.Loader.{Call, Store}
use athena_ai.Rag.Retriever.{Row}
use athena_ai.Gateway.Schemas.{DocumentIngestRequest}
use athena_ai.Gateway.Routes.{http_error, document_ingest}
use athena_ai.Prelude.Texts.{strip}
use athena_ai.Gateway.App.Domains.{AreDomains, is_blank_cases, allowed_domains-AreDomains}
use athena_ai.Gateway.App.{
  App, Environment, is_blank, setting, allowed_domains, build_tool_registry,
  maybe_add_document_loader, lifespan, or_none,
}

abbrev as_option : {A B : Type 0} → Result B → Option A
as_option r = or_none (r >>= λ x. err type_error)

none_anyway :
    {A B : Type 0} (b b' : Bool) (r : Result B)
    → (if b then none else if b' then none else as_option {A = A} r) ≡ none
none_anyway true b' r = refl
none_anyway false true r = refl
none_anyway false false (ok x) = refl
none_anyway false false (err e) = refl

module _ {Float W : Type 0}
    (embed_with : CloudEmbedder → List Text → W → Result (List (List Float)) × W) where
  -- the embedder is constructed without its API key
  maybe_add_document_loader-none :
      (create_pool : Text → Result (Row Float → Bool)) (env : Environment)
      → maybe_add_document_loader embed_with create_pool env ≡ none
  unfolding maybe_add_document_loader new
  maybe_add_document_loader-none create_pool env =
      none_anyway (is_blank (setting "ATHENA_DB_URL" env))
        (is_blank (setting "ATHENA_EMBEDDER_URL" env)) (create_pool (setting "ATHENA_DB_URL" env))

-- a lookup, by the tests of the code
get-build_tool_registry :
    {V W : Type 0} (calculator : Tool V W) (http_tool : List Text → Tool V W) (env : Environment)
    (name : String)
    → ((domains : List Text) → (http_tool domains).name ≡ "http_get")
    → calculator.name ≡ "calculator"
    → get name (build_tool_registry calculator http_tool env) ≡ (
        if "http_get" == name
        then (if is_blank (setting "ATHENA_ALLOWED_DOMAINS" env)
            then err key_error
            else ok (http_tool (allowed_domains (get_or "ATHENA_ALLOWED_DOMAINS" [] env))))
        else if "calculator" == name
        then ok calculator
        else err key_error)
unfolding build_tool_registry get
get-build_tool_registry calculator http_tool env name e e' =
    let domains = allowed_domains (get_or "ATHENA_ALLOWED_DOMAINS" [] env) in
    let alone : get name (register calculator [])
        ≡ (if "calculator" == name then ok calculator else err key_error) =
      get-register calculator name [] ∙ rw e' refl in
    let both : get name (register (http_tool domains) (register calculator [])) ≡ (
        if "http_get" == name then ok (http_tool domains) else get name (register calculator [])) =
      get-register (http_tool domains) name (register calculator []) ∙ rw (e domains) refl in
    elim (Bool-cases (is_blank (setting "ATHENA_ALLOWED_DOMAINS" env))) [
      | inl blank ↦ elim (Bool-cases ("http_get" == name)) [
        | inl asked ↦
            let other : ("calculator" == name) ≡ false =
              ap (λ n. "calculator" == n) (sym ((eq_iff "http_get" name).0 asked)) in
            rw (blank, asked) (alone ∙ rw other refl)
        | inr not_asked ↦ rw (blank, not_asked) alone
      ]
      | inr listed ↦ rw listed (both ∙ rw alone refl)
    ]

not_named : (a b : String) → b ≢ a → (a == b) ≡ false
not_named a b h = elim (Bool-cases (a == b)) [
  | inl e ↦ absurd (h (sym ((eq_iff a b).0 e)))
  | inr e ↦ e
]

-- For a calculator named "calculator" and an HTTP tool named "http_get": the registry has the
-- calculator, and no tool of another name than these two. It has no HTTP tool where
-- ATHENA_ALLOWED_DOMAINS is missing or strips to nothing; otherwise it has the one whose domains
-- are the parts of that setting between commas, stripped, without those that strip to nothing.
pub build_tool_registry_lem :
    {V W : Type 0} (calculator : Tool V W) (http_tool : List Text → Tool V W) (env : Environment)
    → ((domains : List Text) → (http_tool domains).name ≡ "http_get")
    → calculator.name ≡ "calculator"
    → let raw = get_or "ATHENA_ALLOWED_DOMAINS" [] env in
      let registry = build_tool_registry calculator http_tool env in
      (get "calculator" registry ≡ ok calculator)
      × ((name : String)
          → name ≢ "calculator"
          → name ≢ "http_get"
          → get name registry ≡ err key_error)
      × (((strip raw ≡ []) × (get "http_get" registry ≡ err key_error))
          ⊎ ((strip raw ≢ [])
              × ((domains : List Text) × AreDomains raw domains
                  × (get "http_get" registry ≡ ok (http_tool domains)))))
build_tool_registry_lem calculator http_tool env e e' =
    let raw = get_or "ATHENA_ALLOWED_DOMAINS" [] env in
    let found = λ (name : String). get-build_tool_registry calculator http_tool env name e e' in
    (
      found "calculator",
      λ name other other'.
          found name
          ∙ rw (not_named "http_get" name other', not_named "calculator" name other) refl,
      elim (is_blank_cases (strip raw)) [
        | inl (blank, empty) ↦ inl (empty, found "http_get" ∙ rw blank refl)
        | inr (listed, full) ↦ inr (
          full,
          (allowed_domains raw, allowed_domains-AreDomains raw, found "http_get" ∙ rw listed refl),
        )
      ],
    )

no_loader :
    {V Float W : Type 0} (m k : Result ℕ) (made : ℕ → ℕ → App V Float W) {app : App V Float W}
    → ((i j : ℕ) → (made i j).document_loader ≡ none)
    → (m >>= λ i. k >>= λ j. ok (made i j)) ≡ ok app
    → app.document_loader ≡ none
no_loader (err e) k made h made_app = cc
no_loader (ok i) (err e) made h made_app = cc
no_loader (ok i) (ok j) made {app} h made_app =
    let same : made i j ≡ app = cc in rw (sym same) (h i j)

-- Whatever the environment and the database, once the lifespan has built the application, a call of
-- /v1/documents/ingest is answered with 503 and changes nothing: the loader's embedder is constructed
-- without its API key, which raises.
pub document_ingest-unavailable :
    {V Float W : Type 0} (cloud_client : Client Cloud.Payload Cloud.Body W)
    (local_client : Client Local.Payload Local.Body W) (capitalize : String → Text)
    (host : Host V W) (raises : Bool) (int : Text → Result ℕ) (calculator : Tool (Output V) W)
    (http_tool : List Text → Tool (Output V) W)
    (embed_with : CloudEmbedder → List Text → W → Result (List (List Float)) × W)
    (create_pool : Text → Result (Row Float → Bool)) (env : Environment) (call : Call Float)
    (body : DocumentIngestRequest) (s : Store Float W) {app : App V Float W}
    → lifespan cloud_client local_client capitalize host raises int calculator http_tool embed_with
        create_pool env
      ≡ ok app
    → document_ingest app.document_loader call body s ≡ (http_error 503 none, s)
unfolding lifespan document_ingest
document_ingest-unavailable cloud_client local_client capitalize host raises int calculator
      http_tool embed_with create_pool env call body s {app} e =
    let absent : app.document_loader ≡ none =
      no_loader _ _ _ (λ i j. maybe_add_document_loader-none embed_with create_pool env) e in
    rw absent refl
