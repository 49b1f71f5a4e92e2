-- ===== src/Lib.antt =====
-- A model of AthenaAI's Python package (src/athenai) and the theorems that it satisfies.
--
-- A request of a user comes in at the HTTP handlers (Gateway), which hand a chat to the runtime
-- (Runtime) and a task to the agent's loop (Agents); the loop lets the model call tools (Tools) until
-- it answers. Both reach the model by an adapter (Models). The routing (Routing) picks a model by
-- complexity, score and circuit state, and the context engine (Context) counts, ranks and packs what a
-- model will read into a token budget. Calls to the outside are guarded by the resilience parts
-- (Resilience). Documents are cut up, embedded and stored for retrieval in Rag, and a session's
-- messages and facts are kept in Memory. The exceptions, the request types and the shutdown are
-- shared (Core).
--
-- Which file models which source:
--   Core/Errors, Core/Types   src/athenai/core/exceptions.py, core/types.py. An exception is a value
--     `err e` of `Result`; its message is left out.
--   Core/Config               src/athenai/core/config.py: the settings and their defaults.
--   Core/Lifecycle            src/athenai/core/lifecycle.py: `lifespan` round any body.
--   Core/Json                 the values of `json.loads` and of tool arguments.
--   Resilience/Breaker        src/athenai/resilience/circuit_breaker.py. A method that holds the lock
--     is one function on the record of fields. `call` is `admit`, the awaited function, `settle`;
--     Breaker/Events runs the atomic steps of many coroutines in any order.
--   Resilience/RateLimiter    src/athenai/resilience/rate_limiter.py: `acquire`.
--   Resilience/Retry          src/athenai/resilience/retry.py: `with_retry`, by recursion on the
--     attempts that are left.
--   Resilience/Timeout        src/athenai/resilience/timeout.py.
--   Routing/Policies, Scorer, Router   the files of those names in src/athenai/routing;
--     `select_model` is `ModelRouter.select`.
--   Context/Budget, Packing, Engine, Ranking   the files of those names in src/athenai/context.
--   Agents/State              src/athenai/agents/state.py: `transition`.
--   Agents/Trace              the steps and results of state.py, and what the loop carries along.
--   Agents/Protocol           the prompt and the parser of the tool calls in src/athenai/agents/executor.py.
--   Agents/Executor           src/athenai/agents/executor.py: `run`, with `turn` for one iteration
--     and `loop` by recursion on the iterations that are left, which is the bound of the source.
--     agents/agent.py only calls it.
--   Rag/Parser, Chunker, Embedder, Retriever, Loader, Reranker   the files of those names in
--     src/athenai/rag. The `while` of the chunker runs on fuel, the length of the text, and the batches
--     of the embedder on the number of texts. The SQL table is a list of rows.
--     Loader/Coroutine has `ingest` as a coroutine, of which Loader/Races runs two at once,
--     under the conditions of Loader/Storable.
--   Memory/Conversation, Summary, Semantic, Working   the files of those names in src/athenai/memory.
--     An SQL table is a list of rows; `get_recent_summarised` is `SummaryMemory.get_recent`. The lists of
--     Working are objects in a heap. Conversation/Log compares the log with the events of its sessions,
--     and Summary/Window says which of them are summarised.
--   Models/Base, Mock, Cloud, Local, Registry   the files of those names in src/athenai/models;
--     Models/Wire is what the adapters exchange with httpx.
--   Runtime/Pipeline          src/athenai/runtime/pipeline.py: `execute` and `stream` as coroutines round the
--     semaphore; Runtime/Admission runs any number of them, step by step.
--   Gateway/Schemas, Routes, App   the files of those names in src/athenai/gateway. A handler is a
--     function on the decoded body; Gateway/App is what the lifespan builds from the environment,
--     and Gateway/Accounting is any requests one after the other, with the counters.
--   Tools/Registry, Validator, Http, Sql, Calculator   the files of those names in src/athenai/tools.
--
-- Numbers: Python ints that count are native naturals, and an int that may be negative is a `ℤ` of
-- Core/Json. Floats are an abstract type, the record `Floats`, with the operations that the code
-- applies; theorems on their order take `FloatLaws`, which hold of finite doubles. Python ints do
-- not overflow, so no width is modelled.
--
-- Time: a clock reading is an argument of the step that reads it. Steps under one lock are atomic.
-- Prelude/Tasks has coroutines that the event loop may interleave at each await; where none is named, a
-- call runs alone, and the tool calls of a turn run in their order.
--
-- Parameters, as their code is not in the repository: numpy in the ranking, `json` in the executor,
-- httpx in the adapters, the embedder and the HTTP tool, `urlparse` in the HTTP tool, `str.capitalize`
-- in the local adapter, asyncpg, `str.upper` and `int()` in the SQL tool, pgvector's distance, the rows
-- that its index comes to and what the database refuses in the stores, `ast.parse` and Python's
-- arithmetic in the calculator, `uuid4`, `math.sin` and `math.sqrt`, `random.uniform`
-- and `asyncio.sleep` in the retry, `asyncio.timeout`, and asyncio's semaphore with the laws of its counter.
--
-- Not modelled: logging and the export of the metrics (the counters that the routes increment are
-- modelled), how pydantic reads the settings, and the script of the notes under docs,
-- which are glue or output.
pub mod Agents
pub mod Context
pub mod Core
pub mod Gateway
pub mod Memory
pub mod Models
pub mod Prelude
pub mod Rag
pub mod Resilience
pub mod Routing
pub mod Runtime
pub mod Tools
