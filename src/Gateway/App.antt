-- ===== src/Gateway/App.antt =====
-- src/athenai/gateway/app.py: what the lifespan builds from the environment. The clients of httpx,
-- `create_pool`, `int()` and whether the constructor of the cloud adapter raises are parameters. The two
-- tools are objects; Tools/Calculator and Tools/Http have their `execute`.
pub mod Domains
use mathlib.Core.List.{reverse}
use athena_ai.Prelude.{
  ℕ, String, Text, codes, Bool, true, false, Option, none, some, List, [], ◌∷◌, ◌==◌, nat_eq,
  if◌then◌else◌,
}
use athena_ai.Prelude.Dict.{Dict, get_or}
use athena_ai.Prelude.Texts.{strip}
use athena_ai.Core.Errors.{Result, ok, err, ◌>>=◌}
use athena_ai.Models.Mock as Mock
use athena_ai.Models.Cloud as Cloud
use athena_ai.Models.Local as Local
use athena_ai.Models.Wire.{Client}
use athena_ai.Models.Registry.{AnyModel, mock, cloud, local}
use athena_ai.Agents.Trace.{Output, AgentResult, Host}
use athena_ai.Agents.Executor.{run}
use athena_ai.Tools.Registry.{Tool, register}
use athena_ai.Rag.Chunker.{SlidingWindowChunker}
use athena_ai.Rag.Chunker as Chunker
use athena_ai.Rag.Embedder.{CloudEmbedder}
use athena_ai.Rag.Embedder as Embedder
use athena_ai.Rag.Loader.{DocumentLoader}
use athena_ai.Rag.Retriever.{Row}
use athena_ai.Runtime.Pipeline.{Backend}

-- `os.environ`
abbrev pub Environment : Type 0
Environment = Dict Text

-- `os.environ.get(key, "").strip()`
abbrev pub setting : String → Environment → Text
setting key env = strip (get_or key [] env)

abbrev pub is_blank : Text → Bool
is_blank [] = true
is_blank (c ∷ cs) = false

mock_model : AnyModel
mock_model = mock (record { name = codes "mock"; healthy = true })

-- `_build_model`, where `raises` tells whether `CloudModel(...)` does
unfoldable pub build_model : Bool → Environment → AnyModel
unfolding mock_model
build_model raises env =
    let api_key = setting "ANTHROPIC_API_KEY" env in
    if is_blank api_key
    then mock_model
    else if raises
    then mock_model
    else cloud (record {
      api_key = api_key;
      model_name = get_or "ANTHROPIC_MODEL" (codes "claude-3-5-haiku-20241022") env;
      base_url = codes "https://api.anthropic.com/v1/messages";
    })

-- the part read so far, newest character first
split_from : Text → Text → List Text
split_from part [] = reverse part ∷ []
split_from part (c ∷ cs) =
    if c == 44 then reverse part ∷ split_from [] cs else split_from (c ∷ part) cs

keep_domains : List Text → List Text
keep_domains [] = []
keep_domains (d ∷ ds) = if is_blank (strip d) then keep_domains ds else strip d ∷ keep_domains ds

-- [d.strip() for d in raw.split(",") if d.strip()]
unfoldable pub allowed_domains : Text → List Text
unfolding split_from keep_domains
allowed_domains raw = keep_domains (split_from [] raw)

-- `_build_tool_registry`, with `CalculatorTool()` and `HTTPTool(allowed_domains=...)`
unfoldable pub build_tool_registry :
    {V W : Type 0} → Tool V W → (List Text → Tool V W) → Environment → Dict (Tool V W)
build_tool_registry calculator http_tool env =
    let raw = get_or "ATHENA_ALLOWED_DOMAINS" [] env in
    let registry = register calculator [] in
    if is_blank (strip raw) then registry else register (http_tool (allowed_domains raw)) registry

-- the `except Exception` of `_maybe_add_document_loader`
abbrev pub or_none : {A : Type 0} → Result A → Option A
or_none (ok a) = some a
or_none (err e) = none

module _ {Float W : Type 0}
    (embed_with : CloudEmbedder → List Text → W → Result (List (List Float)) × W) where
  -- what `create_pool` gives is what the database refuses
  loader_with : (Row Float → Bool) → CloudEmbedder → SlidingWindowChunker → DocumentLoader Float W
  loader_with refuses embedder chunker = record {
    chunker = chunker;
    embed = embed_with embedder;
    refuses = refuses;
  }

  -- the `try`; the defaults of the chunker are 512 and 64
  connect : Result (Row Float → Bool) → Text → Result (DocumentLoader Float W)
  unfolding loader_with
  connect pool embedder_url = do
    refuses ← pool
    embedder ← Embedder.new none embedder_url
    chunker ← Chunker.new 512 64
    ok (loader_with refuses embedder chunker)

  -- `_maybe_add_document_loader`: the new `app.state.document_loader`
  unfoldable pub maybe_add_document_loader :
      (Text → Result (Row Float → Bool)) → Environment → Option (DocumentLoader Float W)
  unfolding connect
  maybe_add_document_loader create_pool env =
      let db_url = setting "ATHENA_DB_URL" env in
      let embedder_url = setting "ATHENA_EMBEDDER_URL" env in
      if is_blank db_url
      then none
      else if is_blank embedder_url
      then none
      else or_none (connect (create_pool db_url) embedder_url)

-- `app.state`
pub record App (V Float W : Type 0) : Type 0 where
  pub runtime : Backend W
  pub max_concurrent : ℕ
  -- `agent.run`
  pub run : Text → W → Result (AgentResult V) × W
  pub document_loader : Option (DocumentLoader Float W)

module _ {W : Type 0} (cloud_client : Client Cloud.Payload Cloud.Body W)
    (local_client : Client Local.Payload Local.Body W) (capitalize : String → Text) where
  -- an adapter as an object: only the mock has `stream`
  unfoldable pub backend_of : AnyModel → Backend W
  backend_of (mock m) = record {
    model = Mock.as_model m;
    stream = some (λ request w. ((Mock.stream m request, none), w));
  }
  backend_of (cloud m) = record { model = Cloud.as_model cloud_client m; stream = none }
  backend_of (local m) = record { model = Local.as_model capitalize local_client m; stream = none }

  -- the agent over a backend and a registry: `json` is the host's
  unfoldable pub agent_with :
      {V : Type 0}
      → Host V W
      → Backend W
      → Dict (Tool (Output V) W)
      → ℕ
      → Text
      → W
      → Result (AgentResult V) × W
  agent_with host backend tools max_iterations task w =
      run (record host { generate = backend.model.generate }) max_iterations tools task w

  -- `lifespan`, up to its `yield`: one backend for the runtime and the agent
  unfoldable pub lifespan :
      {V Float : Type 0}
      → Host V W
      → Bool
      → (Text → Result ℕ)
      → Tool (Output V) W
      → (List Text → Tool (Output V) W)
      → (CloudEmbedder → List Text → W → Result (List (List Float)) × W)
      → (Text → Result (Row Float → Bool))
      → Environment
      → Result (App V Float W)
  unfolding backend_of agent_with build_model build_tool_registry maybe_add_document_loader
  lifespan host raises int calculator http_tool embed_with create_pool env =
      let backend = backend_of (build_model raises env) in
      let tools = build_tool_registry calculator http_tool env in
      int (get_or "ATHENA_MAX_CONCURRENT" (codes "20") env) >>= λ max_concurrent.
      int (get_or "ATHENA_MAX_AGENT_ITER" (codes "10") env) >>= λ max_iterations. ok (record {
        runtime = backend;
        max_concurrent = max_concurrent;
        run = agent_with host backend tools max_iterations;
        document_loader = maybe_add_document_loader embed_with create_pool env;
      })
