-- ===== src/Gateway/Accounting.antt =====
-- What the counters of src/athenai/gateway/routes.py say after any requests.
use athena_ai.Prelude.{
  ℕ, ◌+◌, ◌≡◌, String, Text, true, false, Option-cases, List, [], ◌∷◌, ◌==◌, string_eq, ◌&&◌,
  if◌then◌else◌, arith, inl, inr,
}
use athena_ai.Core.Errors.{Error, Result, Result-cases}
use athena_ai.Agents.Trace.{AgentResult}
use athena_ai.Runtime.Pipeline.{Backend, FreshIds, execute}
use athena_ai.Runtime.Pipeline as Pipeline
use athena_ai.Gateway.Schemas.{ChatRequest, ChatResponse, AgentRunRequest, AgentRunResponse}
use athena_ai.Gateway.Routes.{
  Answer, replied, http_error, Metrics, request_of, answer_chat, chat, event_stream, chat_stream,
  answer_run, agent_run,
}

-- a request to one of the endpoints that count
pub data Incoming : Type 0 where
  to_chat : FreshIds → ChatRequest → Incoming
  to_stream : FreshIds → ChatRequest → Incoming
  to_agent : AgentRunRequest → Incoming

pub data Outcome (V : Type 0) : Type 0 where
  chatted : Answer ChatResponse → Outcome V
  streamed : Answer (List Text) → Outcome V
  ran : Answer (AgentRunResponse V) → Outcome V

-- how often a counter was incremented under an endpoint and a status
abbrev tally_of : String → String → List (String × String) → ℕ
tally_of endpoint status [] = 0
tally_of endpoint status ((e, s) ∷ rest) =
    (if e == endpoint && s == status then 1 else 0) + tally_of endpoint status rest

abbrev pub tally : String → String → Metrics → ℕ
tally endpoint status metrics = tally_of endpoint status metrics.requests_total

-- 1 for an outcome of the kind
abbrev chat_replied : {V : Type 0} → Outcome V → ℕ
chat_replied (chatted (replied r)) = 1
chat_replied _ = 0

abbrev chat_refused : {V : Type 0} → Outcome V → ℕ
chat_refused (chatted (http_error n e)) = 1
chat_refused _ = 0

abbrev stream_replied : {V : Type 0} → Outcome V → ℕ
stream_replied (streamed (replied r)) = 1
stream_replied _ = 0

abbrev run_replied : {V : Type 0} → Outcome V → ℕ
run_replied (ran (replied r)) = 1
run_replied _ = 0

abbrev run_refused : {V : Type 0} → Outcome V → ℕ
run_refused (ran (http_error n e)) = 1
run_refused _ = 0

abbrev iterations : {V : Type 0} → Outcome V → ℕ
iterations (ran (replied r)) = r.total_iterations
iterations _ = 0

abbrev total : {A : Type 0} → (A → ℕ) → List A → ℕ
total f [] = 0
total f (x ∷ xs) = f x + total f xs

-- the counters grew by what the clients got
pub record IsCounted {V : Type 0} (outcomes : List (Outcome V)) (before after : Metrics)
    : Type 0 where
  pub chats :
      tally "/v1/chat" "success" after
      ≡ tally "/v1/chat" "success" before + total chat_replied outcomes
  pub failed_chats :
      tally "/v1/chat" "error" after ≡ tally "/v1/chat" "error" before + total chat_refused outcomes
  pub streams :
      tally "/v1/chat/stream" "success" after + tally "/v1/chat/stream" "error" after
      ≡ tally "/v1/chat/stream" "success" before
        + tally "/v1/chat/stream" "error" before
        + total stream_replied outcomes
  pub runs :
      tally "/v1/agents/run" "success" after
      ≡ tally "/v1/agents/run" "success" before + total run_replied outcomes
  pub failed_runs :
      tally "/v1/agents/run" "error" after
      ≡ tally "/v1/agents/run" "error" before + total run_refused outcomes
  pub iterations_added :
      after.agent_iterations_total ≡ before.agent_iterations_total + total iterations outcomes

module _ {V W : Type 0} (runtime : Backend W) (run : Text → W → Result (AgentResult V) × W)
    (str : Error → Text) where
  -- one request, and any requests one after the other
  unfoldable pub serve : Incoming → W → Metrics → Outcome V × (W × Metrics)
  serve (to_chat minted body) w metrics =
      let (answer, s) = chat runtime minted body w metrics in (chatted answer, s)
  serve (to_stream minted body) w metrics =
      let (answer, s) = chat_stream runtime str minted body w metrics in (streamed answer, s)
  serve (to_agent body) w metrics =
      let (answer, s) = agent_run run body w metrics in (ran answer, s)

  unfoldable pub serve_all : List Incoming → W → Metrics → List (Outcome V) × (W × Metrics)
  unfolding serve
  serve_all [] w metrics = ([], (w, metrics))
  serve_all (i ∷ is) w metrics =
      let (outcome, (w', metrics')) = serve i w metrics in
      let (outcomes, s) = serve_all is w' metrics' in (outcome ∷ outcomes, s)

  chat-IsCounted :
      (minted : FreshIds) (body : ChatRequest) (w : W) (metrics : Metrics)
      → let (answer, s) = chat runtime minted body w metrics in
        IsCounted {V = V} (chatted answer ∷ []) metrics s.1
  unfolding chat answer_chat
  chat-IsCounted minted body w metrics = elim (Result-cases (request_of minted false body)) [
    | inr (e, p) ↦ rw (p, chat) (omega arith)
    | inl (request, p) ↦ elim (Result-cases (execute runtime minted request w).0) [
      | inr (e, q) ↦ rw (p, chat, q, answer_chat) (omega arith)
      | inl (response, q) ↦ rw (p, chat, q, answer_chat) (omega arith)
    ]
  ]

  stream-IsCounted :
      (minted : FreshIds) (body : ChatRequest) (w : W) (metrics : Metrics)
      → let (answer, s) = chat_stream runtime str minted body w metrics in
        IsCounted {V = V} (streamed answer ∷ []) metrics s.1
  unfolding chat_stream event_stream
  stream-IsCounted minted body w metrics = elim (Result-cases (request_of minted true body)) [
    | inr (e, p) ↦ rw (p, chat_stream) (omega arith)
    | inl (request, p) ↦ elim (Option-cases (Pipeline.stream runtime request w).0.1) [
      | inl q ↦ rw (p, chat_stream, q) (omega arith)
      | inr (e, q) ↦ rw (p, chat_stream, q) (omega arith)
    ]
  ]

  run-IsCounted :
      (body : AgentRunRequest) (w : W) (metrics : Metrics)
      → let (answer, s) = agent_run run body w metrics in
        IsCounted {V = V} (ran answer ∷ []) metrics s.1
  unfolding agent_run answer_run
  run-IsCounted body w metrics = elim (Result-cases (run body.task w).0) [
    | inr (e, q) ↦ rw (q, answer_run) (omega arith)
    | inl (result, q) ↦ rw (q, answer_run) (omega arith)
  ]

  serve-IsCounted :
      (i : Incoming) (w : W) (metrics : Metrics)
      → IsCounted ((serve i w metrics).0 ∷ []) metrics (serve i w metrics).1.1
  unfolding serve
  serve-IsCounted (to_chat minted body) w metrics = chat-IsCounted minted body w metrics
  serve-IsCounted (to_stream minted body) w metrics = stream-IsCounted minted body w metrics
  serve-IsCounted (to_agent body) w metrics = run-IsCounted body w metrics

  -- Whatever requests come in, and whatever the model and the agent do: requests_total has grown for
  -- /v1/chat and for /v1/agents/run by the successes that were answered with a reply and by the errors
  -- that were answered with an HTTPException, for /v1/chat/stream by the streams that were sent; and
  -- agent_iterations_total by the iterations of the runs that were replied.
  pub serve_all-IsCounted :
      (is : List Incoming) (w : W) (metrics : Metrics)
      → IsCounted (serve_all is w metrics).0 metrics (serve_all is w metrics).1.1
  unfolding serve_all
  serve_all-IsCounted [] w metrics = omega arith
  serve_all-IsCounted (i ∷ is) w metrics =
      let (outcome, (w', metrics')) = serve i w metrics in
      let first = serve-IsCounted i w metrics in
      let rest = serve_all-IsCounted is w' metrics' in
      record {
        chats = omega (arith, first.chats, rest.chats);
        failed_chats = omega (arith, first.failed_chats, rest.failed_chats);
        streams = omega (arith, first.streams, rest.streams);
        runs = omega (arith, first.runs, rest.runs);
        failed_runs = omega (arith, first.failed_runs, rest.failed_runs);
        iterations_added = omega (arith, first.iterations_added, rest.iterations_added);
      }
