-- ===== src/Agents/Executor/Endings.antt =====
-- The outcomes of a run, and what holds before each iteration of its loop.
use athena_ai.Prelude.{
  ℕ, suc, ◌+◌, ◌≤◌, ◌≡◌, ◌⊎◌, inl, inr, refl, none, List, [], ◌∷◌, ◌++◌, arith, length,
  length-append, All, All-append,
}
use athena_ai.Core.Errors.{ok}
use athena_ai.Agents.State.{running, completed, failed, transition}
use athena_ai.Agents.Executor.Answers.{Answers}
use athena_ai.Models.Base.{ChatMessage, ModelResponse}
use athena_ai.Agents.Trace.{AgentStep, AgentResult, Progress, Turn, again, answered}
use athena_ai.Agents.Executor.{finish, last_response, give_up}

-- a step that is not the last: it has called tools
pub record IsToolStep {V : Type 0} (s : AgentStep V) : Type 0 where
  pub called : 1 ≤ length s.tool_calls
  pub settled : Answers s.tool_calls s.tool_results

-- the steps are numbered from `n`
abbrev pub IsNumbered : {V : Type 0} → ℕ → List (AgentStep V) → Type 0
IsNumbered n [] = Unit
IsNumbered n (s ∷ ss) = (s.iteration ≡ n) × IsNumbered (suc n) ss

IsNumbered-append :
    {V : Type 0} (n : ℕ) (ss : List (AgentStep V)) (s : AgentStep V)
    → IsNumbered n ss
    → s.iteration ≡ n + length ss
    → IsNumbered n (ss ++ s ∷ [])
IsNumbered-append n [] s h e = (omega arith, tt)
IsNumbered-append n (t ∷ ts) s h e = (h.0, IsNumbered-append (suc n) ts s h.1 (omega arith))

-- the model stopped calling tools, within the limit
pub record IsAnswered {V : Type 0} (max_iterations : ℕ) (r : AgentResult V) : Type 0 where
  pub earlier : List (AgentStep V)
  pub last : AgentStep V
  pub all_steps : r.steps ≡ earlier ++ last ∷ []
  pub earlier_called : All IsToolStep earlier
  pub last_called_none : last.tool_calls ≡ []
  pub is_last_response : r.final_answer ≡ last.model_response
  pub is_completed : r.status ≡ completed
  pub within : r.total_iterations ≤ max_iterations

-- every iteration called tools
pub record IsExhausted {V : Type 0} (max_iterations : ℕ) (r : AgentResult V) : Type 0 where
  pub all_called : All IsToolStep r.steps
  pub is_failed : r.status ≡ failed
  pub used : r.total_iterations ≡ max_iterations
  pub answer : r.final_answer ≡ last_response r.steps

pub record IsOutcome {V : Type 0} (max_iterations : ℕ) (r : AgentResult V) : Type 0 where
  pub numbered : IsNumbered 0 r.steps
  pub counted : length r.steps ≡ r.total_iterations
  pub ending : IsAnswered max_iterations r ⊎ IsExhausted max_iterations r

-- what holds before each iteration
pub record IsUnderway {V : Type 0} (p : Progress V) : Type 0 where
  pub is_running : p.status ≡ running
  pub counted : length p.steps ≡ p.iteration
  pub numbered : IsNumbered 0 p.steps
  pub called : All IsToolStep p.steps

-- what an iteration ends in
abbrev pub IsTurnOf : {V : Type 0} → ℕ → Progress V → Turn V → Type 0
IsTurnOf max_iterations p (again p') = IsUnderway p' × (p'.iteration ≡ p.iteration + 1)
IsTurnOf max_iterations p (answered r) = IsOutcome max_iterations r

unfoldable pub last_step : {V : Type 0} → Progress V → ModelResponse → AgentStep V
last_step p response = record {
  iteration = p.iteration;
  model_response = response.content;
  tool_calls = [];
  tool_results = [];
}

pub finish-ok :
    {V : Type 0} (p : Progress V) (response : ModelResponse) {r : AgentResult V}
    → p.status ≡ running
    → finish p response ≡ ok r
    → r ≡ record {
      final_answer = response.content;
      steps = p.steps ++ last_step p response ∷ [];
      total_iterations = p.iteration + 1;
      status = completed;
    }
unfolding finish transition last_step
finish-ok p response e h = ground (arith)

pub finish-IsOutcome :
    {V : Type 0} (max_iterations : ℕ) (p : Progress V) (response : ModelResponse)
    {r : AgentResult V}
    → IsUnderway p
    → p.iteration + 1 ≤ max_iterations
    → finish p response ≡ ok r
    → IsOutcome max_iterations r
unfolding last_step
finish-IsOutcome max_iterations p response u fits h =
    rw (finish-ok p response u.is_running h) (record {
      numbered =
          IsNumbered-append 0 p.steps (last_step p response) u.numbered (omega (arith, u.counted));
      counted = omega (arith, length-append p.steps (last_step p response ∷ []), u.counted);
      ending = inl (record {
        earlier = p.steps;
        last = last_step p response;
        all_steps = refl;
        earlier_called = u.called;
        last_called_none = refl;
        is_last_response = refl;
        is_completed = refl;
        within = fits;
      });
    })

give_up-ok :
    {V : Type 0} (max_iterations : ℕ) (p : Progress V) {r : AgentResult V}
    → p.status ≡ running
    → give_up max_iterations p ≡ ok r
    → r ≡ record {
      final_answer = last_response p.steps;
      steps = p.steps;
      total_iterations = max_iterations;
      status = failed;
    }
unfolding give_up transition
give_up-ok max_iterations p e h = ground (arith)

pub give_up-IsOutcome :
    {V : Type 0} (max_iterations : ℕ) (p : Progress V) {r : AgentResult V}
    → IsUnderway p
    → p.iteration ≡ max_iterations
    → give_up max_iterations p ≡ ok r
    → IsOutcome max_iterations r
give_up-IsOutcome max_iterations p u fits h =
    rw (give_up-ok max_iterations p u.is_running h) (record {
      numbered = u.numbered;
      counted = omega (arith, u.counted);
      ending = inr (record { all_called = u.called; is_failed = refl; used = refl; answer = refl });
    })

unfoldable pub next_progress :
    {V : Type 0} → Progress V → AgentStep V → ModelResponse → List ChatMessage → Progress V
next_progress p step response messages = record {
  status = running;
  iteration = p.iteration + 1;
  steps = p.steps ++ step ∷ [];
  messages =
      p.messages
      ++ messages
      ++ record { role = "assistant"; content = response.content; name = none } ∷ [];
}

pub next_progress-IsUnderway :
    {V : Type 0} (p : Progress V) (step : AgentStep V) (response : ModelResponse)
    (messages : List ChatMessage)
    → IsUnderway p
    → step.iteration ≡ p.iteration
    → IsToolStep step
    → IsUnderway (next_progress p step response messages)
unfolding next_progress
next_progress-IsUnderway p step response messages u e s = record {
  is_running = refl;
  counted = omega (arith, length-append p.steps (step ∷ []), u.counted);
  numbered = IsNumbered-append 0 p.steps step u.numbered (omega (arith, u.counted, e));
  called = All-append IsToolStep p.steps (step ∷ []) u.called (s, tt);
}
