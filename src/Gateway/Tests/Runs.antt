-- ===== src/Gateway/Tests/Runs.antt =====
-- Runs of the agent over the mock and over the cloud adapter.
use athena_ai.Prelude.{ℕ, ◌≡◌, refl, codes, none, some, [], ◌∷◌, string_eq, if◌then◌else◌, arith}
use athena_ai.Prelude.Texts.{splitlines, strip, is_space, after_prefix}
use athena_ai.Agents.State.{completed, transition}
use athena_ai.Agents.Protocol.{parse_tool_calls, calls_in_line}
use athena_ai.Agents.Executor.{run}
use athena_ai.Gateway.CloudRuns.{are_turns, RefusesOtherRoles, IsImmediate, agent_with-cloud}
use athena_ai.Models.Cloud.{CloudModel, generate, or_text}
use athena_ai.Models.Wire.{replied as answer, timed_out, Client}
use athena_ai.Models.Registry.{cloud}
use athena_ai.Agents.Trace.{AgentResult}
use athena_ai.Core.Errors.{ok}
use athena_ai.Models.Cloud as Cloud
use athena_ai.Gateway.App.{backend_of, agent_with}
use athena_ai.Gateway.Tests.{local_client, host}

-- an API that refuses other roles and else says hello
abbrev strict_client : Client Cloud.Payload Cloud.Body ℕ
strict_client = record {
  post = λ url p w. (
    answer (record {
      status_code = if are_turns p.messages then 200 else 400;
      json = ok (record {
        content = some (codes "hello") ∷ [];
        model = none;
        input_tokens = none;
        output_tokens = none;
        stop_reason = none;
      });
    }),
    w,
  );
  get = λ url w. (timed_out, w);
}

abbrev claude : CloudModel
claude = record { api_key = codes "k"; model_name = codes "m"; base_url = codes "u" }

strict_client-RefusesOtherRoles : RefusesOtherRoles strict_client
strict_client-RefusesOtherRoles url p w h = rw h (omega arith)

abbrev greeted : AgentResult ℕ
greeted = record {
  final_answer = codes "hello";
  steps =
      record { iteration = 0; model_response = codes "hello"; tool_calls = []; tool_results = [] }
      ∷ [];
  total_iterations = 1;
  status = completed;
}

greeting :
    (agent_with strict_client local_client codes host
      (backend_of strict_client local_client codes (cloud claude))
      []
      3
      (codes "greet")
      0).0
    ≡ ok greeted
unfolding agent_with run transition backend_of generate splitlines strip is_space after_prefix
    parse_tool_calls calls_in_line Cloud.response_of
greeting = refl

agent_with-cloud_example : IsImmediate greeted
agent_with-cloud_example =
    agent_with-cloud strict_client local_client codes host claude [] 3 (codes "greet") 0
      strict_client-RefusesOtherRoles (omega arith) greeting
