-- ===== src/Memory/Working.antt =====
-- src/athenai/memory/working.py. The lists of a state and of a snapshot are objects in a heap, as the
-- code appends to them in place. A snapshot is the dict of its keys, each of which may be missing; its
-- metadata, which no method changes, is a value.
use athena_ai.Prelude.{
  ℕ, ◌+◌, ◌<◌, ◌≡◌, ◌≢◌, refl, ◌∙◌, Text, codes, Option, none, some, List, [], ◌∷◌, ◌++◌, ◌==◌,
  nat_eq, if◌then◌else◌, arith,
}
use athena_ai.Prelude.Dict.{Dict}
use athena_ai.Core.Errors.{Result, ok, err, key_error}
use athena_ai.Core.Json.{Json}

-- an entry of `tool_results`
pub record ToolResult : Type 0 where
  pub tool : Text
  pub result : Json
  pub error : Option Text
  pub iteration : ℕ

-- the list objects that exist, at addresses below `next`
pub record Heap : Type 0 where
  pub next : ℕ
  pub steps_at : ℕ → List Text
  pub results_at : ℕ → List ToolResult

abbrev write : {A : Type 0} → ℕ → A → (ℕ → A) → ℕ → A
write i a f j = if j == i then a else f j

-- `steps` and `tool_results` are addresses
pub record AgentState : Type 0 where
  pub task : Text
  pub session_id : Text
  pub steps : ℕ
  pub tool_results : ℕ
  pub status : Text
  pub iteration : ℕ
  pub metadata : Dict Json

-- a new list object for both kinds of lists, with the given elements
abbrev allocate : List Text → List ToolResult → Heap → ℕ × Heap
allocate steps results h = (
  h.next,
  record {
    next = h.next + 1;
    steps_at = write h.next steps h.steps_at;
    results_at = write h.next results h.results_at;
  },
)

-- `AgentState(task=..., session_id=...)`
unfoldable pub new : Text → Text → Heap → AgentState × Heap
new task session_id h =
    let (address, h') = allocate [] [] h in
    (
      record {
        task = task;
        session_id = session_id;
        steps = address;
        tool_results = address;
        status = codes "CREATED";
        iteration = 0;
        metadata = [];
      },
      h',
    )

-- `AgentState.add_step`
unfoldable pub add_step : Text → AgentState → Heap → Heap
add_step description s h = record h {
  steps_at = write s.steps (h.steps_at s.steps ++ description ∷ []) h.steps_at;
}

-- `AgentState.add_tool_result`
unfoldable pub add_tool_result : Text → Json → Option Text → AgentState → Heap → Heap
add_tool_result tool result error s h =
    let entry : ToolResult = record {
      tool = tool;
      result = result;
      error = error;
      iteration = s.iteration;
    } in
    record h {
      results_at = write s.tool_results (h.results_at s.tool_results ++ entry ∷ []) h.results_at;
    }

pub record Snapshot : Type 0 where
  pub task : Option Text
  pub session_id : Option Text
  pub steps : Option ℕ
  pub tool_results : Option ℕ
  pub status : Option Text
  pub iteration : Option ℕ
  pub metadata : Option (Dict Json)

-- `AgentState.snapshot`, which copies both lists
unfoldable pub snapshot : AgentState → Heap → Snapshot × Heap
snapshot s h =
    let (address, h') = allocate (h.steps_at s.steps) (h.results_at s.tool_results) h in
    (
      record {
        task = some s.task;
        session_id = some s.session_id;
        steps = some address;
        tool_results = some address;
        status = some s.status;
        iteration = some s.iteration;
        metadata = some s.metadata;
      },
      h',
    )

-- `data.get(key, default)`
abbrev or_default : {A : Type 0} → A → Option A → A
or_default a none = a
or_default a (some b) = b

restored : Text → Text → Snapshot → ℕ → AgentState
restored task session_id saved fresh = record {
  task = task;
  session_id = session_id;
  steps = or_default fresh saved.steps;
  tool_results = or_default fresh saved.tool_results;
  status = or_default (codes "CREATED") saved.status;
  iteration = or_default 0 saved.iteration;
  metadata = or_default [] saved.metadata;
}

-- `AgentState.from_snapshot`: the lists of the dict are taken over, not copied
unfoldable pub from_snapshot : Snapshot → Heap → Result AgentState × Heap
unfolding restored
from_snapshot saved h = elim saved.task [
  | none ↦ (err key_error, h)
  | some task ↦ elim saved.session_id [
    | none ↦ (err key_error, h)
    | some session_id ↦
        let (fresh, h') = allocate [] [] h in (ok (restored task session_id saved fresh), h')
  ]
]

-- what is done to a state
pub data Write : Type 0 where
  step : Text → Write
  result : Text → Json → Option Text → Write

abbrev pub apply : Write → AgentState → Heap → Heap
apply (step description) s h = add_step description s h
apply (result tool value error) s h = add_tool_result tool value error s h

abbrev pub apply_all : List Write → AgentState → Heap → Heap
apply_all [] s h = h
apply_all (w ∷ ws) s h = apply_all ws s (apply w s h)

read_other : {A : Type 0} (i j : ℕ) (a : A) (f : ℕ → A) → j ≢ i → write i a f j ≡ f j
read_other i j a f differ = ground (arith, differ)

read_same : {A : Type 0} (i : ℕ) (a : A) (f : ℕ → A) → write i a f i ≡ a
read_same i a f = ground arith

-- writes to a state leave every other list object as it is
apply_all-elsewhere :
    (ws : List Write) (s : AgentState) (h : Heap) (i : ℕ)
    → i ≢ s.steps
    → i ≢ s.tool_results
    → ((apply_all ws s h).steps_at i ≡ h.steps_at i)
      × ((apply_all ws s h).results_at i ≡ h.results_at i)
      × ((apply_all ws s h).next ≡ h.next)
unfolding add_step add_tool_result
apply_all-elsewhere [] s h i p q = (refl, refl, refl)
apply_all-elsewhere (step description ∷ ws) s h i p q =
    let (steps, results, next) = apply_all-elsewhere ws s (add_step description s h) i p q in
    ground (arith, steps, results, next, p, q)
apply_all-elsewhere (result tool value error ∷ ws) s h i p q =
    let (steps, results, next) =
      apply_all-elsewhere ws s (add_tool_result tool value error s h) i p q in
    ground (arith, steps, results, next, p, q)

-- For a state whose lists exist: a snapshot is not touched by what is done to the state after it,
-- and the state that is rebuilt from it has the fields, the steps and the tool results of the
-- moment of the snapshot.
pub from_snapshot-snapshot :
    (s : AgentState) (ws : List Write) (h : Heap)
    → s.steps < h.next
    → s.tool_results < h.next
    → let later = apply_all ws s (snapshot s h).1 in
      let back = from_snapshot (snapshot s h).0 later in
      (t : AgentState) × (back.0 ≡ ok t)
      × (back.1.steps_at t.steps ≡ h.steps_at s.steps)
      × (back.1.results_at t.tool_results ≡ h.results_at s.tool_results)
      × (t ≡ record s { steps = h.next; tool_results = h.next })
unfolding snapshot from_snapshot
from_snapshot-snapshot s ws h p q =
    let later = apply_all ws s (snapshot s h).1 in
    let (steps, results, next) =
      apply_all-elsewhere ws s (snapshot s h).1 h.next (omega (arith, p)) (omega (arith, q)) in
    (
      record s { steps = h.next; tool_results = h.next },
      refl,
      read_other later.next h.next [] later.steps_at (omega (arith, next))
          ∙ steps
          ∙ read_same h.next (h.steps_at s.steps) h.steps_at,
      read_other later.next h.next [] later.results_at (omega (arith, next))
          ∙ results
          ∙ read_same h.next (h.results_at s.tool_results) h.results_at,
      refl,
    )
