-- ===== src/Agents/State.antt =====
-- src/athenai/agents/state.py
use mathlib.Core.Path.{◌≡◌, refl}
use mathlib.Core.Logic.{◌↔◌}
use athena_ai.Prelude.{Bool, true, false, List, [], ◌∷◌, ◌||◌, arith, if◌then◌else◌}
use athena_ai.Core.Errors.{Result, ok, err, value_error}

pub data AgentStatus : Type 0 where
  created running awaiting_tool completed failed : AgentStatus

-- `_TRANSITIONS`
abbrev pub transitions : AgentStatus → List AgentStatus
transitions created = running ∷ []
transitions running = awaiting_tool ∷ completed ∷ failed ∷ []
transitions awaiting_tool = running ∷ failed ∷ []
transitions completed = []
transitions failed = []

abbrev status_eq : AgentStatus → AgentStatus → Bool
status_eq created created = true
status_eq running running = true
status_eq awaiting_tool awaiting_tool = true
status_eq completed completed = true
status_eq failed failed = true
status_eq _ _ = false

abbrev is_among : AgentStatus → List AgentStatus → Bool
is_among s [] = false
is_among s (t ∷ ts) = status_eq s t || is_among s ts

unfoldable pub transition : AgentStatus → AgentStatus → Result AgentStatus
transition current target =
    if is_among target (transitions current) then ok target else err value_error

-- the life of a run, as the module's docstring draws it
pub data Step : AgentStatus → AgentStatus → Type 0 where
  start : Step created running
  call_tools : Step running awaiting_tool
  answer : Step running completed
  give_up : Step running failed
  resume : Step awaiting_tool running
  tool_failure : Step awaiting_tool failed

-- transition accepts exactly the steps of the state diagram of a run.
transition-iff_Step : (s t : AgentStatus) → (transition s t ≡ ok t) ↔ Step s t
unfolding transition
transition-iff_Step s t =
    (λ h. grind (arith, start, call_tools, answer, give_up, resume, tool_failure), back)
  where
    back : Step s t → transition s t ≡ ok t
    back st = elim st as (λ a b _. transition a b ≡ ok b) [
      | start ↦ refl
      | call_tools ↦ refl
      | answer ↦ refl
      | give_up ↦ refl
      | resume ↦ refl
      | tool_failure ↦ refl
    ]
