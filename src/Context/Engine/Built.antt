-- ===== src/Context/Engine/Built.antt =====
-- What a built context guarantees.
use mathlib.Core.List.{append-nil, append_assoc}
use athena_ai.Prelude.{
  ◌⊎◌, ℕ, ◌+◌, ◌≤◌, ◌<◌, ◌≡◌, refl, sym, ap, ◌∙◌, inl, inr, String, Text, List, [], ◌∷◌, ◌++◌, map,
  arith, leb, length, length-append, Bool-cases, All, All-append,
}
use athena_ai.Core.Errors.{Result, ok, err}
use athena_ai.Context.Budget.{TokenBudgetManager}
use athena_ai.Context.Packing.{
  ContextItem, PackedContext, with_priority, known_from, unknown_in, in_order, place, place_all,
  nothing_packed, pack,
}
use athena_ai.Context.Packing.Laws.{Fits, pack-Fits}
use athena_ai.Context.Packing.Order.{IsAscending, pack-IsAscending}
use athena_ai.Context.Engine.{BuiltContext, count_tokens, item_of, buckets_of, build}

abbrev HasTokens : ContextItem → Type 0
HasTokens i = 1 ≤ i.token_count

place_all-length :
    (ceiling : ℕ) (is : List ContextItem) (r : PackedContext)
    → All HasTokens is
    → length r.items ≤ r.total_tokens
    → length (place_all ceiling is r).items ≤ (place_all ceiling is r).total_tokens
unfolding place_all
place_all-length ceiling [] r h fewer = fewer
place_all-length ceiling (i ∷ is) r h fewer =
    place_all-length ceiling is (place ceiling i r) h.1 (step i h.0)
  where
    step :
        (i : ContextItem)
        → HasTokens i
        → length (place ceiling i r).items ≤ (place ceiling i r).total_tokens
    step i h = ground (arith, length-append r.items (i ∷ []))

place-prefix :
    (ceiling : ℕ) (i : ContextItem) (r : PackedContext)
    → (more : List ContextItem) × ((place ceiling i r).items ≡ r.items ++ more)
unfolding place
place-prefix ceiling i r = elim (Bool-cases (leb (r.total_tokens + i.token_count) ceiling)) [
  | inl kept ↦ (i ∷ [], rw kept)
  | inr dropped ↦ ([], rw (dropped, append-nil))
]

place_all-prefix :
    (ceiling : ℕ) (is : List ContextItem) (r : PackedContext)
    → (more : List ContextItem) × ((place_all ceiling is r).items ≡ r.items ++ more)
unfolding place_all
place_all-prefix ceiling [] r = ([], sym (append-nil r.items))
place_all-prefix ceiling (i ∷ is) r =
    let (a, p) = place-prefix ceiling i r in
    let (b, q) = place_all-prefix ceiling is (place ceiling i r) in
    (a ++ b, q ∙ ap (λ l. l ++ b) p ∙ append_assoc r.items a b)

item_of-HasTokens : (bucket : String) (text : Text) → HasTokens (item_of bucket text)
unfolding item_of
item_of-HasTokens bucket text = omega arith

map-HasTokens :
    (p : ℕ) (bucket : String) (texts : List Text)
    → All HasTokens (map (with_priority p) (map (item_of bucket) texts))
map-HasTokens p bucket [] = tt
map-HasTokens p bucket (t ∷ ts) = (item_of-HasTokens bucket t, map-HasTokens p bucket ts)

-- what follows the system prompt, in the order in which it is packed
pub others : List Text → List Text → List Text → List Text → List ContextItem
others conversation memory_items rag_items tool_results =
    map (with_priority 1) (map (item_of "conversation") conversation)
    ++ map (with_priority 2) (map (item_of "memory") memory_items)
    ++ map (with_priority 3) (map (item_of "rag") rag_items)
    ++ map (with_priority 4) (map (item_of "tools") tool_results)

others-HasTokens :
    (conversation memory_items rag_items tool_results : List Text)
    → All HasTokens (others conversation memory_items rag_items tool_results)
unfolding others
others-HasTokens conversation memory_items rag_items tool_results =
    All-append _ _ _
      (All-append _ _ _
        (All-append _ _ _ (map-HasTokens 1 "conversation" conversation)
          (map-HasTokens 2 "memory" memory_items))
        (map-HasTokens 3 "rag" rag_items))
      (map-HasTokens 4 "tools" tool_results)

abbrev pub system_item : Text → ContextItem
system_item text = record (item_of "system" text) { priority = 0 }

in_order-buckets_of :
    (system_prompt : Text) (conversation memory_items rag_items tool_results : List Text)
    → in_order (buckets_of system_prompt conversation memory_items rag_items tool_results)
      ≡ system_item system_prompt ∷ others conversation memory_items rag_items tool_results
unfolding in_order buckets_of known_from unknown_in others
in_order-buckets_of s c m r [] = simp (append-nil, append_assoc)
in_order-buckets_of s c m r (t ∷ ts) = simp (append-nil, append_assoc)

abbrev pub without_system : PackedContext
without_system = record { items = []; total_tokens = 0; dropped_buckets = "system" ∷ [] }

packed_of : BuiltContext → Result BuiltContext → PackedContext
packed_of c (ok b) = b.packed
packed_of c (err e) = c.packed

module _ (budget : TokenBudgetManager) (system_prompt : Text)
    (conversation memory_items rag_items tool_results : List Text) where
  abbrev all_items : List ContextItem
  all_items = system_item system_prompt ∷ others conversation memory_items rag_items tool_results

  abbrev the_build : Result BuiltContext
  the_build = build budget system_prompt conversation (ok memory_items) (ok rag_items) tool_results

  packed_lem :
      pack (buckets_of system_prompt conversation memory_items rag_items tool_results) budget.total
      ≡ place_all budget.total all_items nothing_packed
  unfolding pack
  packed_lem =
      rw (in_order-buckets_of system_prompt conversation memory_items rag_items tool_results)

  pub record IsSound (c : BuiltContext) : Type 0 where
    pub mirrored : c.total_tokens ≡ c.packed.total_tokens
    pub fits : Fits budget.total c.packed
    pub few : length c.packed.items ≤ budget.total
    pub sorted : IsAscending c.packed.items
    pub retrieved : (c.memory_items ≡ memory_items) × (c.rag_items ≡ rag_items)

  few_items :
      length
        (pack
          (buckets_of system_prompt conversation memory_items rag_items tool_results)
          budget.total).items
      ≤ budget.total
  few_items =
      let fits =
        pack-Fits (buckets_of system_prompt conversation memory_items rag_items tool_results)
          budget.total in
      let counted =
        place_all-length budget.total all_items nothing_packed
          (
            item_of-HasTokens "system" system_prompt,
            others-HasTokens conversation memory_items rag_items tool_results,
          )
          (omega arith) in
      let h = rw (← packed_lem) at counted in omega (arith, fits.under, h)

  -- Where both retrievals succeed, build returns a context: its tokens are counted exactly and
  -- within the total budget, it holds no more items than the budget has tokens, the items stand in
  -- order of priority, and what was retrieved is handed back whole.
  pub build-IsSound : (c : BuiltContext) × (the_build ≡ ok c) × IsSound c
  unfolding build
  build-IsSound =
      let buckets = buckets_of system_prompt conversation memory_items rag_items tool_results in
      (
        _,
        refl,
        record {
          mirrored = refl;
          fits = pack-Fits buckets budget.total;
          few = few_items;
          sorted = pack-IsAscending buckets budget.total;
          retrieved = (refl, refl);
        },
      )

  first_fits :
      count_tokens system_prompt ≤ budget.total
      → (more : List ContextItem) × ((place_all budget.total all_items nothing_packed).items
          ≡ system_item system_prompt ∷ more)
  unfolding place_all item_of
  first_fits h =
      let first = place budget.total (system_item system_prompt) nothing_packed in
      let (more, q) =
        place_all-prefix budget.total (others conversation memory_items rag_items tool_results)
          first in
      let kept : first.items ≡ system_item system_prompt ∷ [] = ground arith in
      (more, q ∙ ap (λ l. l ++ more) kept)

  first_too_long :
      budget.total < count_tokens system_prompt
      → place_all budget.total all_items nothing_packed
        ≡ place_all budget.total
            (others conversation memory_items rag_items tool_results)
            without_system
  unfolding place_all item_of
  first_too_long h =
      let dropped : place budget.total (system_item system_prompt) nothing_packed ≡ without_system =
        ground arith in
      ap (place_all budget.total (others conversation memory_items rag_items tool_results)) dropped

  -- The system prompt comes first in the packed context if it fits in the total budget by itself.
  -- If it does not, it is dropped, and the items of lower priority are packed all the same.
  build-system_item :
      (c : BuiltContext)
      → the_build ≡ ok c
      → ((count_tokens system_prompt ≤ budget.total)
          × ((more : List ContextItem) × (c.packed.items ≡ system_item system_prompt ∷ more)))
        ⊎ ((budget.total < count_tokens system_prompt)
            × (c.packed
                ≡ place_all budget.total
                    (others conversation memory_items rag_items tool_results)
                    without_system))
  unfolding build packed_of
  build-system_item c e =
      let from : c.packed ≡ place_all budget.total all_items nothing_packed =
        sym (ap (packed_of c) e) ∙ packed_lem in
      elim (Bool-cases (leb (count_tokens system_prompt) budget.total)) [
        | inl h ↦
            let fits : count_tokens system_prompt ≤ budget.total = ground (arith) in
            let (more, q) = first_fits fits in inl (fits, (more, ap (λ r. r.items) from ∙ q))
        | inr h ↦
            let over : budget.total < count_tokens system_prompt = ground (arith) in
            inr (over, from ∙ first_too_long over)
      ]
