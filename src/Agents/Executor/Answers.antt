-- ===== src/Agents/Executor/Answers.antt =====
-- The results of the tools match the calls of a turn.
use athena_ai.Prelude.{◌≡◌, refl, sym, ap, ◌∙◌, String, some, List, [], ◌∷◌, map, arith}
use athena_ai.Prelude.Dict.{Dict}
use athena_ai.Core.Errors.{Result, ok, err, >>=-eq-ok}
use athena_ai.Core.Json.{Json, Fields, find}
use athena_ai.Tools.Registry.{Tool}
use athena_ai.Models.Base.{ChatMessage}
use athena_ai.Agents.Trace.{Output, ToolOutcome, returned, raised, Host}
use athena_ai.Agents.Executor.{entry, payload, outcome_of, execute_tool, gather, collect}

abbrev pub name_of : {V : Type 0} → ToolOutcome V → Json
name_of (returned n o) = n
name_of (raised n e) = n

-- one result for each call, in the order of the calls and under their names
abbrev pub Answers : {V : Type 0} → List Fields → List (ToolOutcome V) → Type 0
Answers [] [] = Unit
Answers [] (o ∷ os) = ⊥
Answers (c ∷ cs) [] = ⊥
Answers (c ∷ cs) (o ∷ os) = (find "name" c ≡ some (name_of o)) × Answers cs os

entry-eq-ok :
    (key : String) (call : Fields) {j : Json} → entry key call ≡ ok j → find key call ≡ some j
entry-eq-ok key call h = ground (arith)

name_of-outcome_of :
    {V : Type 0} (name : Json) (r : Result (Output V)) → name_of (outcome_of name r) ≡ name
name_of-outcome_of name (ok o) = refl
name_of-outcome_of name (err e) = refl

first_answered :
    {V : Type 0} {M : Type 0} {m : M} (call : Fields) (name : Json) (r : Result (Output V))
    (cs : List Fields) (os : List (ToolOutcome V)) {got : M × List (ToolOutcome V)}
    → Answers cs os
    → entry "name" call ≡ ok name
    → ok (m, outcome_of name r ∷ os) ≡ ok got
    → Answers (call ∷ cs) got.1
first_answered call name r cs os {got = got} settled found h =
    let e : outcome_of name r ∷ os ≡ got.1 = cc in
    rw (sym e) (entry-eq-ok "name" call found ∙ ap some (sym (name_of-outcome_of name r)), settled)

module _ {V W : Type 0} (host : Host V W) where
  pub collect-Answers :
      (results : List (Fields × Result (Output V))) (got : List ChatMessage × List (ToolOutcome V))
      → collect host results ≡ ok got
      → Answers (map (λ p. p.0) results) got.1
  unfolding collect
  collect-Answers [] got h = ground (arith)
  collect-Answers ((call, r) ∷ rest) got h =
      let (content, _, h1) = >>=-eq-ok (payload host r) _ h in
      let (name, found, h2) = >>=-eq-ok (entry "name" call) _ h1 in
      let (got', h3, h4) = >>=-eq-ok (collect host rest) _ h2 in
      first_answered call name r _ _ (collect-Answers rest got' h3) found h4

  pub gather-calls :
      (tools : Dict (Tool (Output V) W)) (calls : List Fields) (w : W)
      → map (λ p. p.0) (gather host tools calls w).0 ≡ calls
  unfolding gather
  gather-calls tools [] w = refl
  gather-calls tools (c ∷ cs) w = rw (gather-calls tools cs (execute_tool host tools c w).1)
