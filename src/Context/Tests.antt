-- ===== src/Context/Tests.antt =====
-- Runs of the context components.
use mathlib.Core.Bool.{false≢true}
use text.Mathlib.TextEquality.{eq_iff}
use athena_ai.Prelude.{
  ℕ, ◌≤◌, ◌<◌, ◌↔◌, String, arith, Text, codes, ◌≡◌, refl, some, List, [], ◌∷◌, map, length-map,
}
use athena_ai.Context.Packing.{ContextItem, pack}
use athena_ai.Prelude.Dict.{Dict, get_or}
use athena_ai.Prelude.Floats.{fixed, fixed_laws}
use athena_ai.Prelude.Sorting.{IsBestOf}
use athena_ai.Core.Errors.{ok}
use athena_ai.Context.Budget
use athena_ai.Context.Budget.{
  TokenBudgetManager, Request, ask, start_over, allocate, remaining, total_used, serve,
}
use athena_ai.Context.Budget.Ceilings.{IsWithin, serve-IsWithin}
use athena_ai.Context.Budget.Buckets.{allocate-own_bucket}
use athena_ai.Core.Config.{defaults}
use athena_ai.Context.Packing.Laws.{Fits, pack-Fits}
use athena_ai.Context.Engine.{BuiltContext, build}
use athena_ai.Context.Engine.Built.{IsSound, build-IsSound}
use athena_ai.Context.Ranking.{
  Candidate, RankedChunk, Numpy, NumpyLaws, Matches, AreScored, rank, rank-IsBestOf,
}

abbrev limits : Dict ℕ
limits = ("system", 100) ∷ ("rag", 300) ∷ ("total", 350) ∷ []

serve-IsWithin_example : IsWithin (
    serve
      (ask "rag" 280 ∷ ask "system" 90 ∷ start_over ∷ ask "system" 100 ∷ [])
      (Budget.new limits))
serve-IsWithin_example =
    serve-IsWithin limits (ask "rag" 280 ∷ ask "system" 90 ∷ start_over ∷ ask "system" 100 ∷ [])

-- after "rag" has taken 280
abbrev part_used : TokenBudgetManager
part_used = record {
  allocations = limits;
  used = ("system", 0) ∷ ("rag", 280) ∷ ("total", 0) ∷ [];
  total = 350;
}

abbrev rag_item : ContextItem
rag_item = record { bucket = "rag"; content = codes "notes"; token_count = 60; priority = 0 }

abbrev prompt_item : ContextItem
prompt_item = record {
  bucket = "system";
  content = codes "be brief";
  token_count = 50;
  priority = 0;
}

abbrev buckets : Dict (List ContextItem)
buckets = ("rag", rag_item ∷ []) ∷ ("system", prompt_item ∷ []) ∷ []

pack-Fits_example : Fits 100 (pack buckets 100)
pack-Fits_example = pack-Fits buckets 100

abbrev system_prompt : Text
system_prompt = codes "You answer in one sentence."

abbrev history : List Text
history = codes "hello" ∷ codes "how can I help" ∷ []

abbrev facts : List Text
facts = codes "the user likes tea" ∷ []

build-IsSound_example :
    (c : BuiltContext) × (build part_used system_prompt history (ok facts) (ok []) [] ≡ ok c)
    × IsSound part_used system_prompt history facts [] [] c
build-IsSound_example = build-IsSound part_used system_prompt history facts [] []

-- vectors of length one, for which these are numpy's operations
abbrev head_or_zero : List ℕ → ℕ
head_or_zero [] = 0
head_or_zero (x ∷ xs) = x

abbrev divided : List ℕ → ℕ → List ℕ
divided xs d = map (λ x. fixed.div x d) xs

abbrev on_lines : Numpy ℕ
on_lines = record {
  norm = head_or_zero;
  divide = divided;
  dot = λ u v. ok (fixed.mul (head_or_zero u) (head_or_zero v));
}

abbrev candidate : List ℕ → Candidate ℕ
candidate v = record { content = some (codes "chunk"); embedding = some v; metadata = [] }

abbrev candidates : List (Candidate ℕ)
candidates = candidate (0 ∷ []) ∷ candidate (3000000 ∷ []) ∷ candidate (5000000 ∷ []) ∷ []

on_lines-NumpyLaws : NumpyLaws fixed on_lines
on_lines-NumpyLaws = record {
  dot-ok = λ u v e. refl;
  length-divide = λ v s. length-map v (λ x. fixed.div x s);
}

candidate-Matches : (x : ℕ) → Matches fixed on_lines (2000000 ∷ []) (candidate (x ∷ []))
candidate-Matches x v e = let same : x ∷ [] ≡ v = cc in rw (← same) refl

rank-IsBestOf_example :
    (rs : List (RankedChunk ℕ)) × (result : List (RankedChunk ℕ)) × (rank fixed on_lines
        (2000000 ∷ [])
        candidates
        2
      ≡ ok result)
    × AreScored fixed on_lines (2000000 ∷ []) candidates rs
    × IsBestOf fixed.le
        (λ (r : RankedChunk ℕ). r.score)
        fixed_laws.le_total
        fixed_laws.le_trans
        2
        rs
        result
rank-IsBestOf_example =
    rank-IsBestOf fixed on_lines fixed_laws on_lines-NumpyLaws (2000000 ∷ []) candidates 2 refl
      (candidate-Matches 0, (candidate-Matches 3000000, (candidate-Matches 5000000, tt)))

-- the settings' own budget, where two buckets are used up
abbrev busy : List Request
busy = ask "rag" 3000 ∷ ask "conversation" 4000 ∷ []

abbrev asked : String
asked = "tools"

allocate-own_bucket_example :
    let m = serve busy (Budget.new defaults.token_budget) in
    ((Budget.allocate asked 500 m).0 ≡ ok 500)
    ↔ ((0 < get_or asked 0 m.allocations) × (500 ≤ Budget.remaining asked m))
allocate-own_bucket_example =
    allocate-own_bucket defaults.token_budget busy asked 500 (omega arith)
      (λ e. false≢true ((eq_iff asked "total").1 e))
