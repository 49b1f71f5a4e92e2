-- ===== src/Runtime/Admission.antt =====
-- src/athenai/runtime/pipeline.py: any number of calls of `execute` and `stream` at once, which share the
-- semaphore. asyncio's semaphore is the parameter `Semaphore`, with what its documentation says of the
-- counter.
use athena_ai.Prelude.{
  ℕ, suc, ◌+◌, ◌≤◌, ◌≡◌, refl, ap, Bool, true, false, Option, some, List, [], ◌∷◌, ◌++◌, arith,
}
use athena_ai.Core.Errors.{Result}
use athena_ai.Core.Types.{AiRequest, AiResponse}
use athena_ai.Runtime.Pipeline.{
  Backend, FreshIds, Streamed, Coroutine, returns, acquires, releases, calls, execute_task,
  stream_task,
}

-- `acquire` gives `none` where the caller has to wait
pub record Semaphore : Type 1 where
  pub State : Type 0
  pub start : ℕ → State
  pub acquire : State → Option State
  pub release : State → State
  pub counter : State → ℕ
  pub counter-start : (n : ℕ) → counter (start n) ≡ n
  pub counter-acquire : (s s' : State) → acquire s ≡ some s' → counter s ≡ suc (counter s')
  pub counter-release : (s : State) → counter (release s) ≡ suc (counter s)

-- what a request comes to
pub data Reply : Type 0 where
  executed : Result AiResponse → Reply
  streamed : Streamed → Reply

-- a request on the way: it can go on, or the model is at work for it
pub data Process (W : Type 0) : Type 0 where
  ready in_call : Coroutine W Reply → Process W

-- how many requests the model is at work for
abbrev pub in_flight : {W : Type 0} → List (Process W) → ℕ
in_flight [] = 0
in_flight (ready c ∷ ps) = in_flight ps
in_flight (in_call c ∷ ps) = suc (in_flight ps)

abbrev permit : Bool → ℕ
permit true = 1
permit false = 0

module _ {W : Type 0} where
  -- a coroutine that takes the semaphore before it calls and gives it back after, from where it
  -- holds the semaphore or does not
  abbrev IsAt : Bool → Coroutine W Reply → Type 0
  IsAt holding (returns a) = holding ≡ false
  IsAt holding (acquires c) = (holding ≡ false) × IsAt true c
  IsAt holding (releases c) = (holding ≡ true) × IsAt false c
  IsAt holding (calls act go) = (holding ≡ true) × ((w : W) → IsAt true (go w))

  abbrev IsProcess : Bool → Process W → Type 0
  IsProcess holding (ready c) = IsAt holding c
  IsProcess holding (in_call c) = (holding ≡ true) × IsAt true c

  -- the requests hold `n` permits
  abbrev Hold : List (Process W) → ℕ → Type 0
  Hold [] n = n ≡ 0
  Hold (p ∷ ps) n = (b : Bool) × (m : ℕ) × (n ≡ permit b + m) × IsProcess b p × Hold ps m

  -- one of the requests, and what replaces it
  Hold-middle :
      (before : List (Process W)) (p : Process W) (after : List (Process W)) (n : ℕ)
      → Hold (before ++ p ∷ after) n
      → (b : Bool) × (m : ℕ) × (n ≡ permit b + m)
        × IsProcess b p
        × ((q : Process W) (b' : Bool)
            → IsProcess b' q
            → Hold (before ++ q ∷ after) (permit b' + m))
  Hold-middle [] p after n (b, m, e, is_process, rest) =
      (b, m, e, is_process, λ q b' h. (b', m, refl, h, rest))
  Hold-middle (r ∷ before) p after n (c, k, e, is_process, rest) =
      let (b, m, e', is_p, put) = Hold-middle before p after k rest in
      (
        b,
        permit c + m,
        omega (arith, e, e'),
        is_p,
        λ q b' h. (c, permit b' + m, omega arith, is_process, put q b' h),
      )

  in_flight-le : (ps : List (Process W)) (n : ℕ) → Hold ps n → in_flight ps ≤ n
  in_flight-le [] n h = omega arith
  in_flight-le (ready c ∷ ps) n (b, m, e, is_process, rest) =
      omega (arith, e, in_flight-le ps m rest)
  in_flight-le (in_call c ∷ ps) n (b, m, e, is_process, rest) =
      omega (arith, e, ap permit is_process.0, in_flight-le ps m rest)

module _ (sem : Semaphore) {W : Type 0} (backend : Backend W) where
  pub record Runtime : Type 0 where
    pub semaphore : sem.State
    pub processes : List (Process W)
    pub world : W

  -- `AthenaRuntime.__init__`
  unfoldable pub new : ℕ → W → Runtime
  new max_concurrent w = record { semaphore = sem.start max_concurrent; processes = []; world = w }

  -- a request arrives, or one of them goes on: by the semaphore, by a call of the model, or by its
  -- answer
  pub data Step : Runtime → Runtime → Type 0 where
    to_execute :
        (s : Runtime) (fresh : FreshIds) (request : AiRequest)
        → Step s (record s {
          processes = ready (execute_task backend executed fresh request) ∷ s.processes;
        })
    to_stream :
        (s : Runtime) (request : AiRequest)
        → Step s
            (record s { processes = ready (stream_task backend streamed request) ∷ s.processes })
    enter :
        (s : Runtime) (before : List (Process W)) (c : Coroutine W Reply) (after : List (Process W))
        (taken : sem.State)
        → s.processes ≡ before ++ ready (acquires c) ∷ after
        → sem.acquire s.semaphore ≡ some taken
        → Step s (record s { semaphore = taken; processes = before ++ ready c ∷ after })
    leave :
        (s : Runtime) (before : List (Process W)) (c : Coroutine W Reply) (after : List (Process W))
        → s.processes ≡ before ++ ready (releases c) ∷ after
        → Step s (record s {
          semaphore = sem.release s.semaphore;
          processes = before ++ ready c ∷ after;
        })
    call :
        (s : Runtime) (before : List (Process W)) (act : W → W) (go : W → Coroutine W Reply)
        (after : List (Process W))
        → s.processes ≡ before ++ ready (calls act go) ∷ after
        → Step s
            (record s { processes = before ++ in_call (go s.world) ∷ after; world = act s.world })
    answer :
        (s : Runtime) (before : List (Process W)) (c : Coroutine W Reply) (after : List (Process W))
        → s.processes ≡ before ++ in_call c ∷ after
        → Step s (record s { processes = before ++ ready c ∷ after })

  pub data Reachable (max_concurrent : ℕ) (w : W) : Runtime → Type 0 where
    started : Reachable max_concurrent w (new max_concurrent w)
    step : (s t : Runtime) → Reachable max_concurrent w s → Step s t → Reachable max_concurrent w t

  -- the permits that are held and those that are left
  Accounts : ℕ → Runtime → Type 0
  Accounts max_concurrent s =
      (n : ℕ) × Hold s.processes n × (n + sem.counter s.semaphore ≡ max_concurrent)

  arrive-Accounts :
      (n : ℕ) (s : Runtime) (p : Process W)
      → IsProcess false p
      → Accounts n s
      → Accounts n (record s { processes = p ∷ s.processes })
  unfolding Accounts
  arrive-Accounts n s p h (k, hold, all) = (k, (false, k, omega arith, h, hold), all)

  Accounts-Step : (n : ℕ) (s t : Runtime) → Step s t → Accounts n s → Accounts n t
  unfolding Accounts execute_task stream_task
  Accounts-Step n s t st = elim st as (λ a b _. Accounts n a → Accounts n b) [
    | to_execute s fresh request ↦ λ h.
        arrive-Accounts n s (ready (execute_task backend executed fresh request))
          (refl, (refl, λ w. (refl, refl))) h
    | to_stream s request ↦ λ h.
        arrive-Accounts n s (ready (stream_task backend streamed request))
          (refl, (refl, λ w. (refl, refl))) h
    | enter s before c after taken e acquired ↦ λ (k, hold, all).
        let (b, m, sum, h, put) = Hold-middle before (ready (acquires c)) after k (rw e at hold) in
        (
          1 + m,
          put (ready c) true h.1,
          omega (arith, all, sum, ap permit h.0, sem.counter-acquire s.semaphore taken acquired),
        )
    | leave s before c after e ↦ λ (k, hold, all).
        let (b, m, sum, h, put) = Hold-middle before (ready (releases c)) after k (rw e at hold) in
        (
          0 + m,
          put (ready c) false h.1,
          omega (arith, all, sum, ap permit h.0, sem.counter-release s.semaphore),
        )
    | call s before act go after e ↦ λ (k, hold, all).
        let (b, m, sum, h, put) =
          Hold-middle before (ready (calls act go)) after k (rw e at hold) in
        (
          1 + m,
          put (in_call (go s.world)) true (refl, h.1 s.world),
          omega (arith, all, sum, ap permit h.0),
        )
    | answer s before c after e ↦ λ (k, hold, all).
        let (b, m, sum, h, put) = Hold-middle before (in_call c) after k (rw e at hold) in
        (1 + m, put (ready c) true h.1, omega (arith, all, sum, ap permit h.0))
  ]

  Accounts-Reachable : (n : ℕ) (w : W) (s : Runtime) → Reachable n w s → Accounts n s
  unfolding new Accounts
  Accounts-Reachable n w _ started = (0, refl, omega (arith, sem.counter-start n))
  Accounts-Reachable n w _ (step s t r st) = Accounts-Step n s t st (Accounts-Reachable n w s r)

  -- Whatever calls of execute and stream arrive, and in whatever order they go on, the model is at
  -- work for at most max_concurrent of them at once, whether it answers or raises.
  pub in_flight-bounded :
      (max_concurrent : ℕ) (w : W) (s : Runtime)
      → Reachable max_concurrent w s
      → in_flight s.processes ≤ max_concurrent
  unfolding Accounts
  in_flight-bounded n w s r =
      let (k, hold, all) = Accounts-Reachable n w s r in
      omega (arith, all, in_flight-le s.processes k hold)
