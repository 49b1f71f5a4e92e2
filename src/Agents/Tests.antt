-- ===== src/Agents/Tests.antt =====
-- Runs of the agent's loop.
use athena_ai.Prelude.{
  ℕ, zero, suc, ◌+◌, Text, codes, ◌≡◌, refl, sym, true, [], ◌∷◌, string_eq, All,
}
use athena_ai.Prelude.Dict.{Dict}
use athena_ai.Core.Errors.{ok}
use athena_ai.Core.Json.{Json, string, object, close, field, has}
use athena_ai.Tools.Registry.{Tool}
use athena_ai.Models.Base.{ModelResponse}
use athena_ai.Agents.Trace.{Output, plain, AgentResult, Host, decoded}
use athena_ai.Agents.Executor.{run}
use athena_ai.Agents.Executor.Endings.{IsOutcome}
use athena_ai.Agents.Executor.Outcome.{run-IsOutcome}
use athena_ai.Agents.Executor.Total.{IsReliable, run-total}

-- a model that asks for a tool at its first call and answers at the next; the world counts calls
abbrev reply_text : ℕ → Text
reply_text zero = codes "TOOL_CALL: {}"
reply_text (suc w) = codes "42"

abbrev reply : ℕ → ModelResponse
reply w = record {
  content = reply_text w;
  model_name = codes "m";
  input_tokens = 1;
  output_tokens = 1;
  finish_reason = codes "stop";
  structured_calls = [];
}

abbrev the_call : Json
the_call = object (field "name" (string "echo") (field "arguments" (object close) close))

abbrev host : Host ℕ ℕ
host = record {
  generate = λ q w. (ok (reply w), w + 1);
  loads = λ t. decoded the_call;
  dumps = λ v. ok (codes "7");
  dumps_error = λ e. codes "error";
  dumps_schemas = λ ss. codes "[]";
}

abbrev echo : Tool (Output ℕ) ℕ
echo = record {
  name = "echo";
  description = codes "repeats";
  input_schema = record { properties = []; required = [] };
  execute = λ j w. (ok (plain (codes "done")), w);
}

abbrev tools : Dict (Tool (Output ℕ) ℕ)
tools = ("echo", echo) ∷ []

reply-named :
    (w : ℕ) {r : ModelResponse}
    → ok (reply w) ≡ ok r
    → All (λ c. has "name" c ≡ true) r.structured_calls
reply-named w {r = r} e = let same : reply w ≡ r = cc in rw (sym same) tt

host-IsReliable : IsReliable host
host-IsReliable = record {
  responds = λ q w. refl;
  names = λ q w e. reply-named w e;
  reads = λ t e h. cc;
  writes = λ v. refl;
}

abbrev result : AgentResult ℕ
result = (run-total host 5 tools (codes "what is 6 * 7?") 0 host-IsReliable).0

run-total_example : (r : AgentResult ℕ) × ((run host 5 tools (codes "what is 6 * 7?") 0).0 ≡ ok r)
run-total_example = run-total host 5 tools (codes "what is 6 * 7?") 0 host-IsReliable

run-IsOutcome_example : IsOutcome 5 result
run-IsOutcome_example =
    run-IsOutcome host 5 tools (codes "what is 6 * 7?") 0
      (run-total host 5 tools (codes "what is 6 * 7?") 0 host-IsReliable).1
