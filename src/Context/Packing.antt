-- ===== src/Context/Packing.antt =====
-- src/athenai/context/packing.py. An item object is taken to stand in one place of the buckets, so
-- the write to its `priority` is a new record.
pub mod Laws
pub mod Order
use athena_ai.Prelude.{
  ℕ, suc, ◌+◌, String, Text, Bool, true, false, not, ◌||◌, List, [], ◌∷◌, ◌++◌, map, ◌==◌,
  string_eq, leb, length, if◌then◌else◌,
}
use athena_ai.Prelude.Dict.{Dict, get_or}

abbrev pub priority_order : List String
priority_order = "system" ∷ "conversation" ∷ "memory" ∷ "rag" ∷ "tools" ∷ []

pub record ContextItem : Type 0 where
  pub bucket : String
  pub content : Text
  pub token_count : ℕ
  pub priority : ℕ

pub record PackedContext : Type 0 where
  pub items : List ContextItem
  pub total_tokens : ℕ
  pub dropped_buckets : List String

-- `bucket_name in names`
abbrev pub is_in : String → List String → Bool
is_in name [] = false
is_in name (n ∷ ns) = (n == name) || is_in name ns

abbrev pub with_priority : ℕ → ContextItem → ContextItem
with_priority p i = record i { priority = p }

-- the first loop, over the names of `PRIORITY_ORDER` from position `p` on
unfoldable pub known_from : ℕ → List String → Dict (List ContextItem) → List ContextItem
known_from p [] buckets = []
known_from p (name ∷ names) buckets =
    map (with_priority p) (get_or name [] buckets) ++ known_from (suc p) names buckets

-- the second loop, over the other buckets
unfoldable pub unknown_in : Dict (List ContextItem) → List ContextItem
unknown_in [] = []
unknown_in ((name, items) ∷ buckets) =
    (if is_in name priority_order then [] else map (with_priority (length priority_order)) items)
    ++ unknown_in buckets

unfoldable pub in_order : Dict (List ContextItem) → List ContextItem
unfolding known_from unknown_in
in_order buckets = known_from 0 priority_order buckets ++ unknown_in buckets

-- one round of the last loop
unfoldable pub place : ℕ → ContextItem → PackedContext → PackedContext
place ceiling i r =
    if leb (r.total_tokens + i.token_count) ceiling
    then record r { items = r.items ++ i ∷ []; total_tokens = r.total_tokens + i.token_count }
    else record r { dropped_buckets = r.dropped_buckets ++ i.bucket ∷ [] }

unfoldable pub place_all : ℕ → List ContextItem → PackedContext → PackedContext
unfolding place
place_all ceiling [] r = r
place_all ceiling (i ∷ is) r = place_all ceiling is (place ceiling i r)

abbrev pub nothing_packed : PackedContext
nothing_packed = record { items = []; total_tokens = 0; dropped_buckets = [] }

unfoldable pub pack : Dict (List ContextItem) → ℕ → PackedContext
unfolding in_order place_all
pack buckets ceiling = place_all ceiling (in_order buckets) nothing_packed
