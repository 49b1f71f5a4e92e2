-- ===== src/Agents/Executor/Total.antt =====
-- A run returns: nothing in the loop itself raises.
use athena_ai.Prelude.{
  ℕ, zero, suc, ◌≡◌, inl, inr, refl, String, Text, codes, true, false, some, List, [], ◌∷◌, map,
  All, Option-cases,
}
use mathlib.Core.Bool.{false≢true}
use athena_ai.Prelude.Dict.{Dict}
use athena_ai.Core.Errors.{Error, Result, ok, err, is_ok}
use athena_ai.Core.Json.{Json, Fields, find, has}
use athena_ai.Agents.State.{running, transition}
use athena_ai.Tools.Registry.{Tool}
use athena_ai.Agents.Executor.Answers.{gather-calls}
use athena_ai.Models.Base.{ChatMessage, ModelRequest, ModelResponse, request_with}
use athena_ai.Agents.Trace.{
  Output, plain, value, ToolOutcome, AgentResult, Host, fails, Progress, Turn, again, answered,
}
use athena_ai.Agents.Protocol.{tool_calls_of-AreNamed, build_system_prompt}
use athena_ai.Agents.Executor.{
  outcome_of, entry, payload, gather, collect, finish, resume, respond, respond_to, turn, give_up,
  loop, at_start, run,
}

IsNamed : Fields → Type 0
IsNamed c = has "name" c ≡ true

-- the adapter answers, its structured calls are named, and `json` can write what the tools return
pub record IsReliable {V W : Type 0} (host : Host V W) : Type 0 where
  pub responds : (q : ModelRequest) (w : W) → is_ok (host.generate q w).0 ≡ true
  pub names :
      (q : ModelRequest) (w : W) {r : ModelResponse}
      → (host.generate q w).0 ≡ ok r
      → All (λ c. has "name" c ≡ true) r.structured_calls
  -- `json.loads` raises nothing but JSONDecodeError
  pub reads : (t : Text) (e : Error) → host.loads t ≡ fails e → ⊥
  pub writes : (v : V) → is_ok (host.dumps v) ≡ true

all_named :
    {xs ys : List Fields}
    → xs ≡ ys
    → All (λ c. has "name" c ≡ true) ys
    → All (λ c. has "name" c ≡ true) xs
all_named {ys = ys} e h = rw (e) h

is_ok-eq-ok : {A : Type 0} (m : Result A) → is_ok m ≡ true → (a : A) × (m ≡ ok a)
is_ok-eq-ok (ok a) h = (a, refl)
is_ok-eq-ok (err e) h = cc

entry-ok :
    (key : String) (call : Fields) → has key call ≡ true → (j : Json) × (entry key call ≡ ok j)
entry-ok key call h = elim (Option-cases (find key call)) [
  | inl e ↦ let h' : false ≡ true = (rw (e, has) at h) in absurd (false≢true h')
  | inr (j, e) ↦ (j, rw (e, entry) refl)
]

module _ {V W : Type 0} (host : Host V W) where
  payload-ok : (r : Result (Output V)) → IsReliable host → (t : Text) × (payload host r ≡ ok t)
  payload-ok (err e) i = (host.dumps_error e, refl)
  payload-ok (ok (plain t)) i = (t, refl)
  payload-ok (ok (value v)) i = is_ok-eq-ok (host.dumps v) (i.writes v)

  collect-ok :
      (results : List (Fields × Result (Output V)))
      → IsReliable host
      → All (λ c. has "name" c ≡ true) (map (λ q. q.0) results)
      → (got : List ChatMessage × List (ToolOutcome V)) × (collect host results ≡ ok got)
  unfolding collect
  collect-ok [] i h = (([], []), refl)
  collect-ok ((call, r) ∷ rest) i h =
      let (content, e) = payload-ok r i in
      let (name, e') = entry-ok "name" call h.0 in
      let (got, e'') = collect-ok rest i h.1 in
      (
        (
          record { role = "tool"; content = content; name = some name } ∷ got.0,
          outcome_of name r ∷ got.1,
        ),
        rw (e, e', e'') refl,
      )

  IsReady : Turn V → Type 0
  IsReady (again p) = p.status ≡ running
  IsReady (answered r) = Unit

  respond-total :
      (tools : Dict (Tool (Output V) W)) (p : Progress V) (response : ModelResponse)
      (calls : List Fields) (w : W)
      → IsReliable host
      → p.status ≡ running
      → All (λ c. has "name" c ≡ true) calls
      → (t : Turn V) × ((respond host tools p response calls w).0 ≡ ok t) × IsReady t
  unfolding respond finish resume transition IsReady
  respond-total tools p response [] w i e h = rw (e, finish) (_, refl, tt)
  respond-total tools p response (c ∷ cs) w i e h =
      let (got, e') =
        collect-ok (gather host tools (c ∷ cs) w).0 i
          (all_named (gather-calls host tools (c ∷ cs) w) h) in
      rw (e, e', resume) (_, refl, refl)

  turn-total :
      (system : Text) (tools : Dict (Tool (Output V) W)) (p : Progress V) (w : W)
      → IsReliable host
      → p.status ≡ running
      → (t : Turn V) × ((turn host system tools p w).0 ≡ ok t) × IsReady t
  unfolding turn
  turn-total system tools p w i e =
      let request : ModelRequest = request_with p.messages (codes "agent") system in
      let (response, e') = is_ok-eq-ok (host.generate request w).0 (i.responds request w) in
      let (calls, read, named) =
        tool_calls_of-AreNamed host i.reads response (i.names request w e') in
      let (t, e'', ready) =
        respond-total tools p response calls (host.generate request w).1 i e named in
      (t, rw (e', turn, read, respond_to) e'', ready)

  loop-total :
      (max_iterations : ℕ) (system : Text) (tools : Dict (Tool (Output V) W)) (left : ℕ)
      (p : Progress V) (w : W)
      → IsReliable host
      → p.status ≡ running
      → (r : AgentResult V) × ((loop host max_iterations system tools left p w).0 ≡ ok r)
  unfolding loop IsReady give_up transition
  loop-total max_iterations system tools zero p w i e = rw (e, give_up) (_, refl)
  loop-total max_iterations system tools (suc left) p w i e =
      let (t, e', ready) = turn-total system tools p w i e in
      (elim t
          as (λ t.
            (turn host system tools p w).0 ≡ ok t
            → IsReady t
            → (r : AgentResult V) × ((loop host max_iterations system tools (suc left) p w).0
                ≡ ok r)) [
                  | again p' ↦ λ e' ready.
                      let (r, e'') =
                        loop-total max_iterations system tools left p'
                          (turn host system tools p w).1 i ready in
                      (r, rw (e', loop) e'')
                  | answered r ↦ λ e' ready. (r, rw (e', loop) refl)
                ])
        e' ready

  -- If the model adapter never raises, its structured calls all have a "name", json.loads raises
  -- nothing but JSONDecodeError, and json.dumps accepts whatever a tool returns, then run returns a
  -- result, whatever the text of the responses and whichever tools are unknown or raise.
  pub run-total :
      (max_iterations : ℕ) (tools : Dict (Tool (Output V) W)) (task : Text) (w : W)
      → IsReliable host
      → (r : AgentResult V) × ((run host max_iterations tools task w).0 ≡ ok r)
  unfolding run transition
  run-total max_iterations tools task w i =
      loop-total max_iterations (build_system_prompt host tools) tools max_iterations
        (at_start task running) w i refl
