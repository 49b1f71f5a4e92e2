-- ===== src/Context/Packing/Laws.antt =====
-- The packed context fits, and nothing more could be added to it.
use mathlib.Core.List.{Memᴰ}
use athena_ai.Prelude.{ℕ, ◌+◌, ◌≤◌, ◌<◌, ◌≡◌, ◌⊎◌, inl, inr, String, List, [], ◌∷◌, ◌++◌, arith}
use athena_ai.Prelude.Dict.{Dict}
use athena_ai.Context.Packing.{
  ContextItem, PackedContext, in_order, place, place_all, nothing_packed, pack,
}

abbrev pub sum_tokens : List ContextItem → ℕ
sum_tokens [] = 0
sum_tokens (i ∷ is) = i.token_count + sum_tokens is

sum_tokens-append :
    (xs ys : List ContextItem) → sum_tokens (xs ++ ys) ≡ sum_tokens xs + sum_tokens ys
sum_tokens-append [] ys = omega arith
sum_tokens-append (x ∷ xs) ys = omega (arith, sum_tokens-append xs ys)

pub record Fits (ceiling : ℕ) (r : PackedContext) : Type 0 where
  pub under : r.total_tokens ≤ ceiling
  pub counted : r.total_tokens ≡ sum_tokens r.items

place-Fits :
    (ceiling : ℕ) (i : ContextItem) (r : PackedContext)
    → Fits ceiling r
    → Fits ceiling (place ceiling i r)
unfolding place
place-Fits ceiling i r f = ground (arith, sum_tokens-append r.items (i ∷ []))

place_all-Fits :
    (ceiling : ℕ) (is : List ContextItem) (r : PackedContext)
    → Fits ceiling r
    → Fits ceiling (place_all ceiling is r)
unfolding place_all
place_all-Fits ceiling [] r f = f
place_all-Fits ceiling (i ∷ is) r f =
    place_all-Fits ceiling is (place ceiling i r) (place-Fits ceiling i r f)

-- The tokens of the packed items are counted exactly, and are no more than the ceiling.
pub pack-Fits :
    (buckets : Dict (List ContextItem)) (ceiling : ℕ) → Fits ceiling (pack buckets ceiling)
unfolding pack
pack-Fits buckets ceiling = place_all-Fits ceiling (in_order buckets) nothing_packed (omega arith)

-- what became of one item: it is among the packed ones, or its bucket is listed as dropped and it
-- does not fit beside what is packed
abbrev pub IsSettled : ℕ → PackedContext → ContextItem → Type 0
IsSettled ceiling r i =
    Memᴰ i r.items ⊎ (Memᴰ i.bucket r.dropped_buckets × (ceiling < r.total_tokens + i.token_count))

-- `s` has all that `r` has
record Grows (r s : PackedContext) : Type 0 where
  items_kept : (i : ContextItem) → Memᴰ i r.items → Memᴰ i s.items
  drops_kept : (n : String) → Memᴰ n r.dropped_buckets → Memᴰ n s.dropped_buckets
  grown : r.total_tokens ≤ s.total_tokens

settle :
    (ceiling : ℕ) (r s : PackedContext) (i : ContextItem)
    → Grows r s
    → IsSettled ceiling r i
    → IsSettled ceiling s i
settle ceiling r s i g (inl m) = inl (g.items_kept i m)
settle ceiling r s i g (inr (m, h)) = inr (g.drops_kept i.bucket m, omega (arith, g.grown))
