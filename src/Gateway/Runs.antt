-- ===== src/Gateway/Runs.antt =====
-- What a client of src/athenai/gateway/routes.py gets from a run of the agent over the mock adapter.
use athena_ai.Prelude.{
  ℕ, zero, suc, ◌+◌, ◌<◌, ◌≡◌, refl, ap, ◌∙◌, String, Text, codes, List, [], ◌∷◌, arith,
}
use athena_ai.Prelude.Dict.{Dict}
use athena_ai.Core.Json.{Fields}
use athena_ai.Core.Errors.{Result, ok}
use athena_ai.Models.Base as Base
use athena_ai.Models.Base.{request_with, ModelResponse}
use athena_ai.Models.Mock.{MockModel, generate, echo}
use athena_ai.Models.Cloud as Cloud
use athena_ai.Models.Local as Local
use athena_ai.Models.Wire.{Client}
use athena_ai.Models.Registry.{mock}
use athena_ai.Tools.Registry.{Tool}
use athena_ai.Agents.State.{running, completed, transition}
use athena_ai.Agents.Trace.{Output, Host, AgentStep, AgentResult, Progress, answered}
use athena_ai.Agents.Protocol.{parse_tool_calls, tool_calls_of, calls_in_line, build_system_prompt}
use athena_ai.Agents.Executor.{respond, respond_to, turn, as_answered, at_start, loop, run, finish}
use athena_ai.Gateway.Schemas.{AgentRunRequest}
use athena_ai.Gateway.Routes.{replied, Metrics, count, step_schema, agent_run}
use athena_ai.Gateway.App.{backend_of, agent_with}

module _ {V W : Type 0} (host : Host V W) where
  respond-none :
      (tools : Dict (Tool (Output V) W)) (p : Progress V) (response : ModelResponse)
      (calls : Result (List Fields)) (w : W)
      → calls ≡ ok []
      → respond_to host tools p response calls w ≡ (as_answered (finish p response), w)
  unfolding respond respond_to
  respond-none tools p response calls w e = rw e refl

  loop-answered :
      (max_iterations : ℕ) (system : Text) (tools : Dict (Tool (Output V) W)) (left : ℕ)
      (p : Progress V) (w w' : W) {result : AgentResult V}
      → turn host system tools p w ≡ (ok (answered result), w')
      → loop host max_iterations system tools (suc left) p w ≡ (ok result, w')
  unfolding loop
  loop-answered max_iterations system tools left p w w' {result} e =
      rw (e, loop) (ap (λ r. (ok result, r.1)) e)

module _ {V W : Type 0} (cloud_client : Client Cloud.Payload Cloud.Body W)
    (local_client : Client Local.Payload Local.Body W) (capitalize : String → Text)
    (host : Host V W) (model : MockModel) where
  abbrev echo_step : Text → AgentStep V
  echo_step task = record {
    iteration = 0;
    model_response = echo model.name task;
    tool_calls = [];
    tool_results = [];
  }

  abbrev echo_result : Text → AgentResult V
  echo_result task = record {
    final_answer = echo model.name task;
    steps = echo_step task ∷ [];
    total_iterations = 1;
    status = completed;
  }

  -- the parser reads only `json.loads` of the host
  parse_tool_calls-host :
      (g : Base.ModelRequest → W → Result ModelResponse × W) (text : Text)
      → parse_tool_calls (record host { generate = g }) text ≡ parse_tool_calls host text
  unfolding parse_tool_calls calls_in_line
  parse_tool_calls-host g text = refl

  turn-echo :
      (tools : Dict (Tool (Output V) W)) (system task : Text) (w : W)
      → parse_tool_calls host (echo model.name task) ≡ ok []
      → turn
          (record host { generate = λ q v. (ok (generate model q), v) })
          system
          tools
          (at_start task running)
          w
        ≡ (ok (answered (echo_result task)), w)
  unfolding turn tool_calls_of finish transition generate
  turn-echo tools system task w e =
      respond-none (record host { generate = λ q v. (ok (generate model q), v) }) tools
        (at_start task running)
        (generate model
          (request_with (at_start {V = V} task running).messages (codes "agent") system))
        _ w (parse_tool_calls-host (λ q v. (ok (generate model q), v)) (echo model.name task) ∙ e)

  agent_with-echo :
      (tools : Dict (Tool (Output V) W)) (left : ℕ) (task : Text) (w : W)
      → parse_tool_calls host (echo model.name task) ≡ ok []
      → agent_with cloud_client local_client capitalize host
          (backend_of cloud_client local_client capitalize (mock model))
          tools
          (suc left)
          task
          w
        ≡ (ok (echo_result task), w)
  unfolding agent_with backend_of run transition
  agent_with-echo tools left task w e =
      let backend = backend_of cloud_client local_client capitalize (mock model) in
      let over_mock : Host V W = record host { generate = backend.model.generate } in
      loop-answered over_mock (suc left) (build_system_prompt over_mock tools) tools left
        (at_start task running) w w (turn-echo tools (build_system_prompt over_mock tools) task w e)

  -- A run over the mock adapter of a task whose echo asks for no tool, where at least one iteration is
  -- allowed: it is answered in the first iteration with the adapter's name and the task, the world is
  -- untouched, and one success and one iteration are counted.
  agent_run-echo :
      (tools : Dict (Tool (Output V) W)) (max_iterations : ℕ) (body : AgentRunRequest) (w : W)
      (metrics : Metrics)
      → 0 < max_iterations
      → parse_tool_calls host (echo model.name body.task) ≡ ok []
      → agent_run
          (agent_with cloud_client local_client capitalize host
            (backend_of cloud_client local_client capitalize (mock model))
            tools
            max_iterations)
          body
          w
          metrics
        ≡ (
          replied (record {
            final_answer = echo model.name body.task;
            steps = step_schema (echo_step body.task) ∷ [];
            total_iterations = 1;
            status = completed;
          }),
          (
            w,
            record (count "/v1/agents/run" "success" metrics) {
              agent_iterations_total = metrics.agent_iterations_total + 1;
            },
          ),
        )
  unfolding agent_run
  agent_run-echo tools zero body w metrics positive e = absurd (omega (arith, positive))
  agent_run-echo tools (suc left) body w metrics positive e =
      rw (agent_with-echo tools left body.task w e) refl
