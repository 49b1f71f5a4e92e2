-- ===== src/Gateway/Tests/Accounting.antt =====
-- The counters after three requests.
use athena_ai.Prelude.{ℕ, Text, codes, List, [], ◌∷◌}
use athena_ai.Core.Errors.{Result, ok}
use athena_ai.Models.Registry.{mock}
use athena_ai.Agents.State.{completed}
use athena_ai.Agents.Trace.{AgentResult}
use athena_ai.Gateway.App.{backend_of}
use athena_ai.Gateway.Accounting.{
  Incoming, to_chat, to_stream, to_agent, IsCounted, serve_all, serve_all-IsCounted,
}
use athena_ai.Gateway.Tests.{cloud_client, local_client, minted, question, body, metrics, the_mock}

-- an agent that answers after three iterations
abbrev tired : Text → ℕ → Result (AgentResult ℕ) × ℕ
tired task w =
    (ok (record { final_answer = task; steps = []; total_iterations = 3; status = completed }), w)

-- a chat, one with a role that does not exist, and a run
abbrev three : List Incoming
three =
    to_chat minted body
    ∷ to_stream minted (record body { messages = record question { role = "robot" } ∷ [] })
    ∷ to_agent (record { task = codes "add"; tools = []; max_iterations = 10; user_id = "u" })
    ∷ []

serve_all-IsCounted_example :
    IsCounted
      (serve_all
        (backend_of cloud_client local_client codes (mock the_mock))
        tired
        (λ e. codes "!")
        three
        0
        metrics).0
      metrics
      (serve_all
        (backend_of cloud_client local_client codes (mock the_mock))
        tired
        (λ e. codes "!")
        three
        0
        metrics).1.1
serve_all-IsCounted_example =
    serve_all-IsCounted (backend_of cloud_client local_client codes (mock the_mock)) tired
      (λ e. codes "!") three 0 metrics
