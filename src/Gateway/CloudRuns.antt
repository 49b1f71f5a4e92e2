-- ===== src/Gateway/CloudRuns.antt =====
-- What a run of the agent over the cloud adapter comes to, where src/athenai/agents/executor.py sends
-- the results of tools under a role of their own and src/athenai/models/cloud.py passes the messages on
-- as they are.
use athena_ai.Prelude.{
  some, none, ℕ, zero, suc, ◌≤◌, ◌≡◌, refl, String, Text, codes, Bool, true, false, ◌&&◌, ◌||◌,
  List, [], ◌∷◌, ◌++◌, ◌==◌, nat_eq, string_eq, arith, All, inl, inr,
}
use athena_ai.Prelude.Dict.{Dict}
use athena_ai.Core.Json.{Fields}
use athena_ai.Core.Errors.{Error, Result, ok, err, >>=-eq-ok, Result-cases}
use athena_ai.Models.Base.{ChatMessage, ModelRequest, ModelResponse, request_with}
use athena_ai.Models.Cloud as Cloud
use athena_ai.Models.Cloud.{CloudModel, generate, receive, read_reply, payload_of}
use athena_ai.Models.Local as Local
use athena_ai.Models.Wire.{Sent, timed_out, unreachable, replied, Client}
use athena_ai.Models.Registry.{cloud}
use athena_ai.Tools.Registry.{Tool}
use athena_ai.Agents.State.{running, awaiting_tool, completed, transition}
use athena_ai.Agents.Trace.{Output, Host, AgentResult, Progress, Turn, again, answered, ToolOutcome}
use athena_ai.Agents.Protocol.{tool_calls_of, build_system_prompt}
use athena_ai.Agents.Executor.{
  entry, payload, execute_tool, gather, collect, finish, resume, respond, respond_to, turn, loop,
  at_start, run,
}
use athena_ai.Agents.Executor.Endings.{last_step, finish-ok}
use athena_ai.Agents.Executor.Outcome.{as_answered-eq-ok, as_again-eq-ok}
use athena_ai.Gateway.App.{backend_of, agent_with}

-- every message is of the user or of the assistant
abbrev pub are_turns : List ChatMessage → Bool
are_turns [] = true
are_turns (m ∷ ms) = (m.role == "user" || m.role == "assistant") && are_turns ms

-- no reply, or one of 400 and above
abbrev pub IsRefused : Sent Cloud.Body → Type 0
IsRefused timed_out = Unit
IsRefused unreachable = Unit
IsRefused (replied reply) = 400 ≤ reply.status_code

-- the Messages API knows the roles "user" and "assistant" and refuses any other
abbrev pub RefusesOtherRoles : {W : Type 0} → Client Cloud.Payload Cloud.Body W → Type 0
RefusesOtherRoles {W} client =
    (url : Text) (p : Cloud.Payload) (w : W)
    → are_turns p.messages ≡ false
    → IsRefused (client.post url p w).0

are_turns-tool :
    (before : List ChatMessage) (m : ChatMessage) (after : List ChatMessage)
    → m.role ≡ "tool"
    → are_turns (before ++ m ∷ after) ≡ false
are_turns-tool [] m after e = rw e refl
are_turns-tool (b ∷ bs) m after e = ground (arith, are_turns-tool bs m after e)

are_turns-append :
    (ms after : List ChatMessage) → are_turns ms ≡ false → are_turns (ms ++ after) ≡ false
are_turns-append [] after h = cc
are_turns-append (m ∷ ms) after h = ground (arith, are_turns-append ms after)

receive-IsRefused :
    (m : CloudModel) (sent : Sent Cloud.Body)
    → IsRefused sent
    → (e : Error) × (receive m sent ≡ err e)
unfolding receive read_reply
receive-IsRefused m timed_out h = (_, refl)
receive-IsRefused m unreachable h = (_, refl)
receive-IsRefused m (replied reply) h = elim (Result-cases (receive m (replied reply))) [
  | inl (r, e) ↦ absurd (ground arith)
  | inr (x, e) ↦ (x, e)
]

-- answered at once, with no tool called
pub record IsImmediate {V : Type 0} (r : AgentResult V) : Type 0 where
  pub one_iteration : r.total_iterations ≡ 1
  pub is_completed : r.status ≡ completed
  pub called_none : All (λ s. s.tool_calls ≡ []) r.steps

module _ {V W : Type 0} (host : Host V W) where
  collect-tool :
      (call : Fields) (r : Result (Output V)) (rest : List (Fields × Result (Output V)))
      {got : List ChatMessage × List (ToolOutcome V)}
      → collect host ((call, r) ∷ rest) ≡ ok got
      → (m : ChatMessage) × (ms : List ChatMessage) × (got.0 ≡ m ∷ ms) × (m.role ≡ "tool")
  unfolding collect
  collect-tool call r rest {got} h =
      let (content, _, h1) = >>=-eq-ok (payload host r) _ h in
      let (name, _, h2) = >>=-eq-ok (entry "name" call) _ h1 in
      let (others, _, h3) = >>=-eq-ok (collect host rest) _ h2 in
      let m : ChatMessage = record { role = "tool"; content = content; name = some name } in
      let e : got.0 ≡ m ∷ others.0 = cc in (m, others.0, e, refl)

  resume-are_turns :
      (p : Progress V) (response : ModelResponse) (calls : List Fields) (call : Fields)
      (r : Result (Output V)) (rest : List (Fields × Result (Output V))) {p' : Progress V}
      → resume host p response calls ((call, r) ∷ rest) awaiting_tool ≡ ok p'
      → are_turns p'.messages ≡ false
  unfolding resume transition
  resume-are_turns p response calls call r rest {p' = p'} h =
      let (got, collected, h1) = >>=-eq-ok (collect host ((call, r) ∷ rest)) _ h in
      let (m, ms, e, from_tool) = collect-tool call r rest collected in
      let said : ChatMessage = record {
        role = "assistant";
        content = response.content;
        name = none;
      } in
      let all : p'.messages ≡ p.messages ++ got.0 ++ said ∷ [] = cc in
      rw (all, e)
        (are_turns-append (p.messages ++ m ∷ ms) (said ∷ [])
          (are_turns-tool p.messages m ms from_tool))

  -- what the first turn comes to
  abbrev IsFirst : Turn V → Type 0
  IsFirst (again p') = are_turns p'.messages ≡ false
  IsFirst (answered r) = IsImmediate r

  respond-IsFirst :
      (tools : Dict (Tool (Output V) W)) (task : Text) (response : ModelResponse)
      (calls : List Fields) (w : W) {t : Turn V}
      → (respond host tools (at_start task running) response calls w).0 ≡ ok t
      → IsFirst t
  unfolding respond transition last_step
  respond-IsFirst tools task response [] w h =
      let (r, e, et) = as_answered-eq-ok (finish (at_start task running) response) h in
      rw (← et, finish-ok (at_start task running) response refl e)
        (record { one_iteration = refl; is_completed = refl; called_none = (refl, tt) })
  respond-IsFirst tools task response (c ∷ cs) w h =
      let (results, w') = gather host tools cs (execute_tool host tools c w).1 in
      let (p', e, et) =
        as_again-eq-ok
          (resume host (at_start task running) response (c ∷ cs)
            ((c, (execute_tool host tools c w).0) ∷ results) awaiting_tool)
          h in
      rw (← et) (
        resume-are_turns (at_start task running) response (c ∷ cs) c (execute_tool host tools c w).0
          results e)

  turn-IsFirst :
      (system : Text) (tools : Dict (Tool (Output V) W)) (task : Text) (w : W) {t : Turn V}
      → (turn host system tools (at_start task running) w).0 ≡ ok t
      → IsFirst t
  unfolding turn
  turn-IsFirst system tools task w {t} h =
      let request : ModelRequest =
        request_with (at_start {V = V} task running).messages (codes "agent") system in
      elim (Result-cases (host.generate request w).0) [
        | inl (response, e) ↦ elim (Result-cases (tool_calls_of host response)) [
          | inl (calls, e') ↦
              respond-IsFirst tools task response calls (host.generate request w).1
                (rw (e, turn, e', respond_to) at h)
          | inr (x, e') ↦ let h' : err x ≡ ok t = (rw (e, turn, e', respond_to) at h) in cc
        ]
        | inr (x, e) ↦ let h' : err x ≡ ok t = (rw (e, turn) at h) in cc
      ]

  -- an iteration whose messages the model refuses ends the loop by the model's exception
  loop-refused :
      (max_iterations : ℕ) (system : Text) (tools : Dict (Tool (Output V) W)) (left : ℕ)
      (p : Progress V) (w : W) (e : Error)
      → (host.generate (request_with p.messages (codes "agent") system) w).0 ≡ err e
      → (loop host max_iterations system tools (suc left) p w).0 ≡ err e
  unfolding loop turn
  loop-refused max_iterations system tools left p w e h = rw (h, loop, turn) refl

  loop-IsImmediate :
      (max_iterations : ℕ) (system : Text) (tools : Dict (Tool (Output V) W)) (left : ℕ)
      (task : Text) (w : W) {r : AgentResult V}
      → ((p : Progress V) (v : W)
          → are_turns p.messages ≡ false
          → (e : Error) × ((host.generate (request_with p.messages (codes "agent") system) v).0
              ≡ err e))
      → (loop host max_iterations system tools (suc (suc left)) (at_start task running) w).0 ≡ ok r
      → IsImmediate r
  unfolding loop
  loop-IsImmediate max_iterations system tools left task w {r} refuses h =
      let first = turn host system tools (at_start task running) w in
      elim (Result-cases first.0) [
        | inl (again p', e) ↦
            let (x, refused) = refuses p' first.1 (turn-IsFirst system tools task w e) in
            let h' : (loop host max_iterations system tools (suc left) p' first.1).0 ≡ ok r =
              (rw (e, loop) at h) in
            let ended = loop-refused max_iterations system tools left p' first.1 x refused in cc
        | inl (answered r', e) ↦
            let h' : ok r' ≡ ok r = (rw (e, loop) at h) in
            let same : r' ≡ r = cc in rw (← same) (turn-IsFirst system tools task w e)
        | inr (x, e) ↦ let h' : err x ≡ ok r = (rw (e, loop) at h) in cc
      ]

module _ {V W : Type 0} (cloud_client : Client Cloud.Payload Cloud.Body W)
    (local_client : Client Local.Payload Local.Body W) (capitalize : String → Text)
    (host : Host V W) (model : CloudModel) where
  generate-refused :
      RefusesOtherRoles cloud_client
      → (system : Text) (p : Progress V) (w : W) → are_turns p.messages ≡ false
      → (e : Error) × ((generate cloud_client model
            (request_with p.messages (codes "agent") system)
            w).0
          ≡ err e)
  unfolding generate payload_of
  generate-refused refuses system p w h = receive-IsRefused model _ (
      refuses model.base_url (payload_of model (request_with p.messages (codes "agent") system)) w
        h)

  -- Where the API refuses messages whose role is neither "user" nor "assistant": a run of the agent
  -- over the cloud adapter that has at least two iterations returns a result only if the first
  -- response calls no tool, as COMPLETED after one iteration. A run that calls a tool raises.
  pub agent_with-cloud :
      (tools : Dict (Tool (Output V) W)) (max_iterations : ℕ) (task : Text) (w : W)
      {r : AgentResult V}
      → RefusesOtherRoles cloud_client
      → 2 ≤ max_iterations
      → (agent_with cloud_client local_client capitalize host
          (backend_of cloud_client local_client capitalize (cloud model))
          tools
          max_iterations
          task
          w).0
        ≡ ok r
      → IsImmediate r
  unfolding agent_with backend_of run transition
  agent_with-cloud tools zero task w refuses many h = absurd (omega arith)
  agent_with-cloud tools (suc zero) task w refuses many h = absurd (omega arith)
  agent_with-cloud tools (suc (suc left)) task w refuses many h =
      let over_cloud : Host V W = record host { generate = generate cloud_client model } in
      let system = build_system_prompt over_cloud tools in
      loop-IsImmediate over_cloud (suc (suc left)) system tools left task w
        (generate-refused refuses system) h
