-- ===== src/Agents/Executor/Outcome.antt =====
-- What a run of `AgentExecutor.run` returns.
use athena_ai.Prelude.{
  codes, ℕ, zero, suc, ◌+◌, ◌≤◌, ◌≡◌, inl, inr, refl, sym, Text, List, [], ◌∷◌, map, arith,
}
use athena_ai.Prelude.Dict.{Dict}
use athena_ai.Core.Errors.{Result, ok, err, >>=-eq-ok, Result-cases}
use athena_ai.Core.Json.{Fields}
use athena_ai.Agents.State.{running, awaiting_tool, transition}
use athena_ai.Tools.Registry.{Tool}
use athena_ai.Agents.Executor.Answers.{Answers, collect-Answers, gather-calls}
use athena_ai.Agents.Executor.Endings.{
  IsOutcome, IsUnderway, IsTurnOf, finish-IsOutcome, give_up-IsOutcome, next_progress,
  next_progress-IsUnderway,
}
use athena_ai.Models.Base.{ModelRequest, ModelResponse, request_with}
use athena_ai.Agents.Trace.{Output, AgentStep, AgentResult, Host, Progress, Turn, again, answered}
use athena_ai.Agents.Protocol.{tool_calls_of, build_system_prompt}
use athena_ai.Agents.Executor.{
  gather, collect, finish, resume, respond, respond_to, turn, as_again, as_answered, loop, at_start,
  run,
}

pub as_answered-eq-ok :
    {V : Type 0} (m : Result (AgentResult V)) {t : Turn V}
    → as_answered m ≡ ok t
    → (r : AgentResult V) × (m ≡ ok r) × (answered r ≡ t)
as_answered-eq-ok (ok r) h = (r, refl, cc)
as_answered-eq-ok (err e) h = cc

pub as_again-eq-ok :
    {V : Type 0} (m : Result (Progress V)) {t : Turn V}
    → as_again m ≡ ok t
    → (p : Progress V) × (m ≡ ok p) × (again p ≡ t)
as_again-eq-ok (ok p) h = (p, refl, cc)
as_again-eq-ok (err e) h = cc

module _ {V W : Type 0} (host : Host V W) where
  resume-IsUnderway :
      (p : Progress V) (response : ModelResponse) (c : Fields) (cs : List Fields)
      (results : List (Fields × Result (Output V))) {p' : Progress V}
      → map (λ q. q.0) results ≡ c ∷ cs
      → IsUnderway p
      → resume host p response (c ∷ cs) results awaiting_tool ≡ ok p'
      → IsUnderway p' × (p'.iteration ≡ p.iteration + 1)
  unfolding resume transition next_progress
  resume-IsUnderway p response c cs results {p' = p'} named u h =
      let (got, collected, h1) = >>=-eq-ok (collect host results) _ h in
      let settled : Answers (c ∷ cs) got.1 =
        rw (sym named) (collect-Answers host results got collected) in
      let step : AgentStep V = record {
        iteration = p.iteration;
        model_response = response.content;
        tool_calls = c ∷ cs;
        tool_results = got.1;
      } in
      let e : next_progress p step response got.0 ≡ p' = cc in
      rw (sym e) (
        next_progress-IsUnderway p step response got.0 u refl
            (record { called = omega arith; settled = settled }),
        refl,
      )

  respond-IsTurnOf :
      (max_iterations : ℕ) (tools : Dict (Tool (Output V) W)) (p : Progress V)
      (response : ModelResponse) (calls : List Fields) (w : W) {t : Turn V}
      → IsUnderway p
      → p.iteration + 1 ≤ max_iterations
      → (respond host tools p response calls w).0 ≡ ok t
      → IsTurnOf max_iterations p t
  unfolding respond transition
  respond-IsTurnOf max_iterations tools p response [] w u fits h =
      let (r, e, et) = as_answered-eq-ok (finish p response) h in
      rw (sym et) (finish-IsOutcome max_iterations p response u fits e)
  respond-IsTurnOf max_iterations tools p response (c ∷ cs) w {t = t} u fits h =
      let h' : as_again
            (resume host p response (c ∷ cs) (gather host tools (c ∷ cs) w).0 awaiting_tool)
          ≡ ok t =
        rw u.is_running at h in
      let (p', e, et) = as_again-eq-ok _ h' in
      rw (sym et) (
        resume-IsUnderway p response c cs (gather host tools (c ∷ cs) w).0
          (gather-calls host tools (c ∷ cs) w) u e)

  turn-IsTurnOf :
      (max_iterations : ℕ) (system : Text) (tools : Dict (Tool (Output V) W)) (p : Progress V)
      (w : W) {t : Turn V}
      → IsUnderway p
      → p.iteration + 1 ≤ max_iterations
      → (turn host system tools p w).0 ≡ ok t
      → IsTurnOf max_iterations p t
  unfolding turn
  turn-IsTurnOf max_iterations system tools p w {t = t} u fits h =
      let request : ModelRequest = request_with p.messages (codes "agent") system in
      elim (Result-cases (host.generate request w).0) [
        | inl (response, e) ↦ elim (Result-cases (tool_calls_of host response)) [
          | inl (calls, e') ↦
              respond-IsTurnOf max_iterations tools p response calls (host.generate request w).1 u
                fits (rw (e, turn, e', respond_to) at h)
          | inr (x, e') ↦ let h' : err x ≡ ok t = (rw (e, turn, e', respond_to) at h) in cc
        ]
        | inr (x, e) ↦ let h' : err x ≡ ok t = (rw (e, turn) at h) in cc
      ]

  loop-IsOutcome :
      (max_iterations : ℕ) (system : Text) (tools : Dict (Tool (Output V) W)) (left : ℕ)
      (p : Progress V) (w : W) {r : AgentResult V}
      → IsUnderway p
      → p.iteration + left ≡ max_iterations
      → (loop host max_iterations system tools left p w).0 ≡ ok r
      → IsOutcome max_iterations r
  unfolding loop
  loop-IsOutcome max_iterations system tools zero p w u fits h =
      give_up-IsOutcome max_iterations p u (omega arith) h
  loop-IsOutcome max_iterations system tools (suc left) p w {r = r} u fits h =
      elim (Result-cases (turn host system tools p w).0) [
        | inl (again p', e) ↦
            let next = turn-IsTurnOf max_iterations system tools p w u (omega arith) e in
            loop-IsOutcome max_iterations system tools left p' (turn host system tools p w).1 next.0
              (omega (arith, next.1)) (rw (e, loop) at h)
        | inl (answered r', e) ↦
            let h' : ok r' ≡ ok r = (rw (e, loop) at h) in
            let same : r' ≡ r = cc in
            rw (sym same) (turn-IsTurnOf max_iterations system tools p w u (omega arith) e)
        | inr (x, e) ↦ let h' : err x ≡ ok r = (rw (e, loop) at h) in cc
      ]

  -- When run returns, its steps are numbered from 0 and total_iterations counts them. Either the
  -- status is COMPLETED, the last step called no tool and its response is the answer, within
  -- max_iterations; or the status is FAILED and exactly max_iterations iterations all called tools.
  -- Each step that called tools has one result for each call, in the order of the calls.
  pub run-IsOutcome :
      (max_iterations : ℕ) (tools : Dict (Tool (Output V) W)) (task : Text) (w : W)
      {r : AgentResult V}
      → (run host max_iterations tools task w).0 ≡ ok r
      → IsOutcome max_iterations r
  unfolding run transition
  run-IsOutcome max_iterations tools task w h =
      loop-IsOutcome max_iterations (build_system_prompt host tools) tools max_iterations
        (at_start task running) w
        (record { is_running = refl; counted = refl; numbered = tt; called = tt }) (omega arith) h
