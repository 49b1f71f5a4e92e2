-- ===== src/Gateway/Tests/Startup.antt =====
-- What a gateway is built of from an environment.
use athena_ai.Prelude.{
  ℕ, ◌≡◌, refl, String, Text, codes, Bool, false, none, List, [], ◌∷◌, map, string_eq, ◌≢◌, ◌⊎◌,
}
use athena_ai.Gateway.Schemas.{DocumentIngestRequest}
use athena_ai.Gateway.Routes.{http_error, document_ingest}
use athena_ai.Prelude.Dict.{get_or}
use athena_ai.Core.Errors.{Result, ok, err, key_error}
use athena_ai.Agents.Trace.{Output, plain}
use athena_ai.Tools.Registry.{Tool, get}
use athena_ai.Rag.Embedder.{CloudEmbedder}
use athena_ai.Rag.Retriever.{Row}
use athena_ai.Rag.Loader.{Call}
use athena_ai.Prelude.Texts.{strip}
use athena_ai.Gateway.App.Domains.{AreDomains}
use athena_ai.Gateway.App.{
  App, Environment, build_model, build_tool_registry, maybe_add_document_loader, backend_of,
  agent_with, lifespan,
}
use athena_ai.Gateway.Startup.{build_tool_registry_lem, document_ingest-unavailable}
use athena_ai.Gateway.Tests.{cloud_client, local_client, host}

abbrev calculator : Tool (Output ℕ) ℕ
calculator = record {
  name = "calculator";
  description = codes "adds";
  input_schema = record { properties = []; required = [] };
  execute = λ j w. (ok (plain (codes "4")), w);
}

abbrev http_tool : List Text → Tool (Output ℕ) ℕ
http_tool domains = record calculator { name = "http_get" }

abbrev environment : Environment
environment =
    ("ATHENA_ALLOWED_DOMAINS", codes "example.com, b.org")
    ∷ ("ATHENA_DB_URL", codes "postgresql://db")
    ∷ ("ATHENA_EMBEDDER_URL", codes "http://embedder")
    ∷ []

abbrev asked : String
asked = "http_get"

build_tool_registry_lem_example :
    let raw = get_or "ATHENA_ALLOWED_DOMAINS" [] environment in
    let registry = build_tool_registry calculator http_tool environment in
    (get "calculator" registry ≡ ok calculator)
    × ((name : String)
        → name ≢ "calculator"
        → name ≢ "http_get"
        → get name registry ≡ err key_error)
    × (((strip raw ≡ []) × (get "http_get" registry ≡ err key_error))
        ⊎ ((strip raw ≢ [])
            × ((domains : List Text) × AreDomains raw domains
                × (get "http_get" registry ≡ ok (http_tool domains)))))
build_tool_registry_lem_example =
    build_tool_registry_lem calculator http_tool environment (λ domains. refl) refl

abbrev embed_with : CloudEmbedder → List Text → ℕ → Result (List (List ℕ)) × ℕ
embed_with embedder texts w = (ok (map (λ t. 1 ∷ []) texts), w)

abbrev create_pool : Text → Result (Row ℕ → Bool)
create_pool url = ok (λ row. false)

abbrev int : Text → Result ℕ
int text = ok 10

abbrev call : Call ℕ
call = record { new_id = λ i. "id"; now = 5 }

abbrev upload : DocumentIngestRequest
upload = record { content = codes "text"; document_id = "d1"; source = ""; metadata = [] }

abbrev app : App ℕ ℕ ℕ
app =
    let backend = backend_of cloud_client local_client codes (build_model false environment) in
    record {
      runtime = backend;
      max_concurrent = 10;
      run =
          agent_with cloud_client local_client codes host backend
            (build_tool_registry calculator http_tool environment) 10;
      document_loader = maybe_add_document_loader embed_with create_pool environment;
    }

started :
    lifespan cloud_client local_client codes host false int calculator http_tool embed_with
      create_pool environment
    ≡ ok app
unfolding lifespan
started = refl

document_ingest-unavailable_example :
    document_ingest app.document_loader call upload ([], 0) ≡ (http_error 503 none, ([], 0))
document_ingest-unavailable_example =
    document_ingest-unavailable cloud_client local_client codes host false int calculator http_tool
      embed_with create_pool environment call upload ([], 0) started
