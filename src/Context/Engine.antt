-- ===== src/Context/Engine.antt =====
-- src/athenai/context/engine.py. What `memory_fn` and `rag_fn` return, or raise, is an argument.
pub mod Built
use athena_ai.Prelude.{ℕ, ◌/◌, max, String, Text, List, [], ◌∷◌, ◌++◌, map, length}
use athena_ai.Prelude.Dict.{Dict}
use athena_ai.Core.Errors.{Result, ok, err, ◌>>=◌}
use athena_ai.Context.Budget.{TokenBudgetManager}
use athena_ai.Context.Packing.{ContextItem, PackedContext, pack}

pub record BuiltContext : Type 0 where
  pub packed : PackedContext
  pub total_tokens : ℕ
  pub memory_items : List Text
  pub rag_items : List Text
  pub system_prompt : Text

-- `_count`
unfoldable pub count_tokens : Text → ℕ
count_tokens text = max 1 (length text / 4)

unfoldable pub item_of : String → Text → ContextItem
unfolding count_tokens
item_of bucket text = record {
  bucket = bucket;
  content = text;
  token_count = count_tokens text;
  priority = 0;
}

-- no entry is made for an absent or an empty list of tool results
tool_bucket : List Text → Dict (List ContextItem)
unfolding item_of
tool_bucket [] = []
tool_bucket (t ∷ ts) = ("tools", map (item_of "tools") (t ∷ ts)) ∷ []

unfoldable pub buckets_of :
    Text → List Text → List Text → List Text → List Text → Dict (List ContextItem)
unfolding tool_bucket item_of
buckets_of system_prompt conversation memory_items rag_items tool_results =
    ("system", item_of "system" system_prompt ∷ [])
    ∷ ("conversation", map (item_of "conversation") conversation)
    ∷ ("memory", map (item_of "memory") memory_items)
    ∷ ("rag", map (item_of "rag") rag_items)
    ∷ tool_bucket tool_results

-- `asyncio.gather` of the two retrievals; where both raise, the memory's exception stands for the
-- one that came first
unfoldable pub build :
    TokenBudgetManager
    → Text
    → List Text
    → Result (List Text)
    → Result (List Text)
    → List Text
    → Result BuiltContext
unfolding buckets_of
build budget system_prompt conversation memory_fn rag_fn tool_results = do
  memory_items ← memory_fn
  rag_items ← rag_fn
  let packed =
      pack (buckets_of system_prompt conversation memory_items rag_items tool_results) budget.total
  ok (record {
    packed = packed;
    total_tokens = packed.total_tokens;
    memory_items = memory_items;
    rag_items = rag_items;
    system_prompt = system_prompt;
  })
