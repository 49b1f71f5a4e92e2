-- ===== src/Rag/Tests/Table.antt =====
-- Runs of the statements on the table of chunks.
use athena_ai.Rag.Retriever.{Row, row_of, search}
use athena_ai.Rag.Retriever.Searching.{nearer-total, nearer-trans, AreFound, search-nearest}
use athena_ai.Prelude.{
  Bool, true, false, not, Option, some, select, List, ℕ, ◌+◌, ◌-◌, codes, ◌==◌, string_eq, [], ◌∷◌,
}
use athena_ai.Prelude.Dict.{Dict}
use athena_ai.Core.Json.{Json, null}
use athena_ai.Prelude.Floats.{fixed, fixed_laws}
use athena_ai.Prelude.Sorting.{IsBestOf}
use athena_ai.Rag.Tests.{piece}

abbrev stored_rows : List (Row ℕ)
stored_rows =
    row_of 5 (piece 0 0 7 (codes "one two")) (700 ∷ [])
    ∷ row_of 5 (piece 1 4 7 (codes "two")) (300 ∷ [])
    ∷ row_of 5 (piece 2 8 13 (codes "three")) (500 ∷ [])
    ∷ []

abbrev apart : List ℕ → List ℕ → ℕ
apart (a ∷ v) (b ∷ u) = (a - b) + (b - a)
apart _ _ = 0

-- a scan that misses the second row
abbrev probed : List ℕ → List (Row ℕ) → List (Row ℕ)
probed query rows = select (λ row. not (row.id == (piece 1 4 7 (codes "two")).chunk_id)) rows

abbrev same_kind : Json → Json → Bool
same_kind null null = true
same_kind _ _ = false

abbrev wanted : Option (Dict Json)
wanted = some (("lang", null) ∷ [])

search-nearest_example :
    (best : List (Row ℕ)) × IsBestOf
      (λ a b. fixed.le b a)
      (λ (row : Row ℕ). apart row.embedding (400 ∷ []))
      (nearer-total fixed fixed_laws apart probed)
      (nearer-trans fixed fixed_laws apart probed)
      2
      (probed (400 ∷ []) stored_rows)
      best
    × AreFound fixed fixed_laws apart probed same_kind wanted
        (400 ∷ [])
        best
        (search fixed apart probed same_kind (400 ∷ []) 2 wanted stored_rows)
search-nearest_example =
    search-nearest fixed fixed_laws apart probed same_kind (400 ∷ []) 2 wanted stored_rows
