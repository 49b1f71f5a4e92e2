-- ===== src/Memory/Tests.antt =====
-- Runs of the message log and its summaries.
use athena_ai.Prelude.{
  ℕ, ◌≡◌, codes, none, some, [], ◌∷◌, if◌then◌else◌, ◌==◌, string_eq, List, arith, refl, map,
  length, ◌++◌, ◌+◌, Text,
}
use athena_ai.Core.Errors.{ok, Result}
use athena_ai.Core.Json.{null}
use athena_ai.Memory.Working.{
  Heap, AgentState, Write, step, result, apply_all, snapshot, from_snapshot, from_snapshot-snapshot,
}
use athena_ai.Prelude.Last.{last}
use athena_ai.Prelude.Floats.{fixed, fixed_laws}
use athena_ai.Memory.Conversation.{Row, get_recent, count}
use athena_ai.Memory.Conversation as Conversation
use athena_ai.Memory.Conversation.Log.{
  Event, said, refused, cleared, log_of, conversation, log_of-conversation, AreTimed, AreDistinct,
}
use athena_ai.Memory.Summary.{SummaryMemory, get_recent_summarised}
use athena_ai.Memory.Summary.Window.{older, prompt_of, answered, get_recent_summarised-window}
use athena_ai.Memory.Semantic.{Fact, entry_of, store, delete, row_with, corrected, store_lem}

abbrev fact : Fact ℕ
fact = record {
  id = "f1";
  session_id = "s1";
  content = codes "tea";
  embedding = 1 ∷ [];
  created_at = 5;
  metadata = [];
}

abbrev correction : Fact ℕ
correction = record fact { session_id = "s2"; content = codes "coffee"; created_at = 9 }

store_lem_example :
    ((store correction (fact ∷ [])).0 ≡ entry_of (some correction.embedding) correction)
    × (row_with "f1" (store correction (fact ∷ [])).1 ≡ (
        if correction.id == "f1"
        then some (corrected correction (row_with "f1" (fact ∷ [])))
        else row_with "f1" (fact ∷ [])))
    × (row_with "f1" (delete "f1" (store correction (fact ∷ [])).1)
        ≡ (if correction.id == "f1" then none else row_with "f1" (fact ∷ [])))
store_lem_example = store_lem correction "f1" (fact ∷ [])

-- a state with one step, to which a step and a result are added after the snapshot
abbrev heap : Heap
heap = record { next = 1; steps_at = λ i. codes "plan" ∷ []; results_at = λ i. [] }

abbrev state : AgentState
state = record {
  task = codes "add";
  session_id = codes "s1";
  steps = 0;
  tool_results = 0;
  status = codes "RUNNING";
  iteration = 1;
  metadata = [];
}

abbrev writes : List Write
writes = step (codes "call") ∷ result (codes "calculator") null none ∷ []

abbrev heap_later : Heap
heap_later = apply_all writes state (snapshot state heap).1

from_snapshot-snapshot_example :
    (t : AgentState) × ((from_snapshot (snapshot state heap).0 heap_later).0 ≡ ok t)
    × ((from_snapshot (snapshot state heap).0 heap_later).1.steps_at t.steps ≡ codes "plan" ∷ [])
    × ((from_snapshot (snapshot state heap).0 heap_later).1.results_at t.tool_results ≡ [])
    × (t ≡ record state { steps = 1; tool_results = 1 })
from_snapshot-snapshot_example =
    from_snapshot-snapshot state writes heap (omega arith) (omega arith)

abbrev message : Row ℕ
message = record {
  id = "m1";
  session_id = "s1";
  role = "user";
  content = codes "hi";
  created_at = 2;
}

-- a session that is cleared after its first message, and another session between
abbrev events : List (Event ℕ)
events =
    said message
    ∷ cleared "s1"
    ∷ refused (record message { id = "m9" })
    ∷ said (record message { id = "m2"; created_at = 3 })
    ∷ said (record message { id = "m3"; session_id = "s2"; created_at = 4 })
    ∷ said (record message { id = "m4"; role = "assistant"; created_at = 5 })
    ∷ said (record message { id = "m5"; created_at = 6 })
    ∷ []

timed : AreTimed fixed 1 events
timed = (refl, (refl, (refl, (refl, (refl, tt)))))

distinct : AreDistinct events
distinct = (
  (refl, (refl, (refl, (refl, tt)))),
  ((refl, (refl, (refl, tt))), ((refl, (refl, tt)), ((refl, tt), (tt, tt)))),
)

log_of-conversation_example :
    (get_recent fixed "s1" 1 (log_of fixed events [])
      ≡ map (Conversation.entry_of fixed) (last 1 (conversation "s1" events [])))
    × (count fixed "s1" (log_of fixed events []) ≡ length (conversation "s1" events []))
log_of-conversation_example = log_of-conversation fixed fixed_laws 1 events "s1" 1 timed distinct

abbrev memory : SummaryMemory ℕ
memory = record {
  log = log_of fixed events [];
  max_raw_messages = 2;
  keep_recent = 1;
  summaries = ("s1", codes "old") ∷ [];
}

abbrev summarise : Text → ℕ → Result Text × ℕ
summarise prompt w = (ok (codes "greetings"), w + 1)

get_recent_summarised-window_example :
    let ours = conversation "s1" events [] in
    (get_recent_summarised fixed summarise "s1" memory 0
      ≡ answered fixed summarise "s1" memory ours
          (summarise (prompt_of fixed (older fixed memory ours)) 0))
    × (older fixed memory ours ++ last 1 ours ≡ last 2 ours)
get_recent_summarised-window_example =
    get_recent_summarised-window fixed summarise fixed_laws 1 events "s1" memory 0 refl timed
      distinct (omega arith) (omega arith) (omega arith)
