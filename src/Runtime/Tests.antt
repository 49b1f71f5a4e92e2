-- ===== src/Runtime/Tests.antt =====
-- Two requests at a runtime that lets one through.
use athena_ai.Prelude.{
  List, codes, true, false, ◌+◌, ℕ, zero, suc, ◌≤◌, ◌≡◌, refl, none, some, Option, [], ◌∷◌, arith,
}
use athena_ai.Core.Errors.{err, key_error}
use athena_ai.Core.Types.{AiRequest}
use athena_ai.Runtime.Pipeline.{
  Backend, FreshIds, Coroutine, returns, releases, calls, execute_task, stream_task,
}
use athena_ai.Runtime.Admission.{
  Semaphore, Reply, executed, streamed, Process, ready, in_call, in_flight, Runtime, to_execute,
  to_stream, enter, call, Reachable, started, step, new, in_flight-bounded,
}

abbrev take_one : ℕ → Option ℕ
take_one zero = none
take_one (suc n) = some n

taken_one : (s s' : ℕ) → take_one s ≡ some s' → s ≡ suc s'
taken_one zero s' e = cc
taken_one (suc s) s' e = ground arith

abbrev counting : Semaphore
counting = record {
  State = ℕ;
  start = λ n. n;
  acquire = take_one;
  release = suc;
  counter = λ n. n;
  counter-start = λ n. refl;
  counter-acquire = taken_one;
  counter-release = λ n. refl;
}

-- a model that counts its calls and fails
abbrev failing : Backend ℕ
failing = record {
  model = record { generate = λ q w. (err key_error, w + 1); health_check = λ w. (true, w) };
  stream = none;
}

abbrev request : AiRequest
request = record {
  messages = [];
  user_id = "u";
  session_id = "s";
  request_id = codes "r1";
  trace_id = codes "t1";
  model_role = codes "default";
  stream = false;
}

abbrev fresh : FreshIds
fresh = record { trace_id = codes "t"; request_id = codes "r" }

abbrev to_come : List (Process ℕ)
to_come = ready (stream_task failing streamed request) ∷ []

-- what is left of `execute` inside the block
abbrev inside : Coroutine ℕ Reply
inside = calls (λ w. w + 1) (λ w. releases (returns (executed (err key_error))))

abbrev running : List (Process ℕ) → ℕ → ℕ → Runtime counting failing
running processes permits w = record { semaphore = permits; processes = processes; world = w }

-- a stream and a chat arrive, and the chat takes the permit and calls the model
abbrev busy : Runtime counting failing
busy = running (in_call (releases (returns (executed (err key_error)))) ∷ to_come) 0 1

busy-Reachable : Reachable counting failing 1 0 busy
unfolding new execute_task
busy-Reachable =
    let idle = running [] 1 0 in
    let one = running to_come 1 0 in
    let two = running (ready (execute_task failing executed fresh request) ∷ to_come) 1 0 in
    let inner = running (ready inside ∷ to_come) 0 0 in
    step inner busy
      (step two inner
        (step one two (step idle one started (to_stream idle request))
          (to_execute one fresh request))
        (enter two [] inside to_come 0 refl refl))
      (call inner [] (λ w. w + 1) (λ w. releases (returns (executed (err key_error)))) to_come refl)

in_flight-bounded_example : in_flight busy.processes ≤ 1
in_flight-bounded_example = in_flight-bounded counting failing 1 0 busy busy-Reachable
