-- ===== src/Context/Packing/Order.antt =====
-- Packed items come in the order of the priorities.
use mathlib.Core.List.{append-nil, append_assoc}
use athena_ai.Prelude.{
  ℕ, suc, ◌+◌, ◌≤◌, inl, inr, String, List, [], ◌∷◌, ◌++◌, map, arith, leb, length, Bool-cases, All,
  All-append, All-mp,
}
use athena_ai.Prelude.Dict.{Dict, get_or}
use athena_ai.Context.Packing.{
  ContextItem, PackedContext, is_in, priority_order, with_priority, known_from, unknown_in,
  in_order, place, place_all, nothing_packed, pack,
}

abbrev pub IsAscending : List ContextItem → Type 0
IsAscending [] = Unit
IsAscending (i ∷ is) = All (λ j. i.priority ≤ j.priority) is × IsAscending is

abbrev IsBetween : ℕ → ℕ → ContextItem → Type 0
IsBetween lo hi i = (lo ≤ i.priority) × (i.priority ≤ hi)

append-IsAscending :
    (m : ℕ) (xs ys : List ContextItem)
    → All (λ i. i.priority ≤ m) xs
    → All (λ i. m ≤ i.priority) ys
    → IsAscending xs
    → IsAscending ys
    → IsAscending (xs ++ ys)
append-IsAscending m [] ys below above a b = b
append-IsAscending m (x ∷ xs) ys below above a b = (
  All-append _ xs ys a.0 (All-mp ys (λ i h. omega (arith, below.0)) above),
  append-IsAscending m xs ys below.1 above a.1 b,
)

map-at : (p : ℕ) (is : List ContextItem) → All (IsBetween p p) (map (with_priority p) is)
map-at p [] = tt
map-at p (i ∷ is) = (omega arith, map-at p is)

map-IsAscending : (p : ℕ) (is : List ContextItem) → IsAscending (map (with_priority p) is)
map-IsAscending p [] = tt
map-IsAscending p (i ∷ is) =
    (All-mp (map (with_priority p) is) (λ j h. h.0) (map-at p is), map-IsAscending p is)

known_from-IsBetween :
    (p : ℕ) (names : List String) (buckets : Dict (List ContextItem))
    → All (IsBetween p (p + length names)) (known_from p names buckets)
unfolding known_from
known_from-IsBetween p [] buckets = tt
known_from-IsBetween p (name ∷ names) buckets =
    let items = get_or name [] buckets in
    All-append _ (map (with_priority p) items) (known_from (suc p) names buckets)
      (All-mp (map (with_priority p) items) (λ i h. omega (arith, h.0, h.1)) (map-at p items))
      (All-mp (known_from (suc p) names buckets) (λ i h. omega (arith, h.0, h.1))
        (known_from-IsBetween (suc p) names buckets))

known_from-IsAscending :
    (p : ℕ) (names : List String) (buckets : Dict (List ContextItem))
    → IsAscending (known_from p names buckets)
unfolding known_from
known_from-IsAscending p [] buckets = tt
known_from-IsAscending p (name ∷ names) buckets =
    let items = get_or name [] buckets in
    append-IsAscending p (map (with_priority p) items) (known_from (suc p) names buckets)
      (All-mp (map (with_priority p) items) (λ i h. h.1) (map-at p items))
      (All-mp (known_from (suc p) names buckets) (λ i h. omega (arith, h.0))
        (known_from-IsBetween (suc p) names buckets))
      (map-IsAscending p items) (known_from-IsAscending (suc p) names buckets)

unknown_in-at : (buckets : Dict (List ContextItem)) → All (IsBetween 5 5) (unknown_in buckets)
unfolding unknown_in
unknown_in-at [] = tt
unknown_in-at ((name, items) ∷ buckets) = elim (Bool-cases (is_in name priority_order)) [
  | inl e ↦ rw e (unknown_in-at buckets)
  | inr e ↦
      rw e (All-append _ (map (with_priority 5) items) _ (map-at 5 items) (unknown_in-at buckets))
]

unknown_in-IsAscending : (buckets : Dict (List ContextItem)) → IsAscending (unknown_in buckets)
unfolding unknown_in
unknown_in-IsAscending [] = tt
unknown_in-IsAscending ((name, items) ∷ buckets) = elim (Bool-cases (is_in name priority_order)) [
  | inl e ↦ rw e (unknown_in-IsAscending buckets)
  | inr e ↦ rw e (
      append-IsAscending 5 (map (with_priority 5) items) (unknown_in buckets)
        (All-mp (map (with_priority 5) items) (λ i h. h.1) (map-at 5 items))
        (All-mp (unknown_in buckets) (λ i h. h.0) (unknown_in-at buckets)) (map-IsAscending 5 items)
        (unknown_in-IsAscending buckets))
]

pub in_order-IsAscending : (buckets : Dict (List ContextItem)) → IsAscending (in_order buckets)
unfolding in_order
in_order-IsAscending buckets =
    append-IsAscending 5 (known_from 0 priority_order buckets) (unknown_in buckets)
      (All-mp (known_from 0 priority_order buckets) (λ i h. h.1)
        (known_from-IsBetween 0 priority_order buckets))
      (All-mp (unknown_in buckets) (λ i h. h.0) (unknown_in-at buckets))
      (known_from-IsAscending 0 priority_order buckets) (unknown_in-IsAscending buckets)

All-drop :
    (P : ContextItem → Type 0) (xs : List ContextItem) (y : ContextItem) (ys : List ContextItem)
    → All P (xs ++ y ∷ ys)
    → All P (xs ++ ys)
All-drop P [] y ys h = h.1
All-drop P (x ∷ xs) y ys h = (h.0, All-drop P xs y ys h.1)

drop-IsAscending :
    (xs : List ContextItem) (y : ContextItem) (ys : List ContextItem)
    → IsAscending (xs ++ y ∷ ys)
    → IsAscending (xs ++ ys)
drop-IsAscending [] y ys h = h.1
drop-IsAscending (x ∷ xs) y ys h = (All-drop _ xs y ys h.0, drop-IsAscending xs y ys h.1)

front-IsAscending : (xs ys : List ContextItem) → IsAscending (xs ++ ys) → IsAscending xs
front-IsAscending xs [] h = rw (← append-nil xs) h
front-IsAscending xs (y ∷ ys) h = front-IsAscending xs ys (drop-IsAscending xs y ys h)

place_all-IsAscending :
    (ceiling : ℕ) (is : List ContextItem) (r : PackedContext)
    → IsAscending (r.items ++ is)
    → IsAscending (place_all ceiling is r).items
unfolding place_all
place_all-IsAscending ceiling [] r h = front-IsAscending r.items [] h
place_all-IsAscending ceiling (i ∷ is) r h =
    place_all-IsAscending ceiling is (place ceiling i r)
      (elim (Bool-cases (leb (r.total_tokens + i.token_count) ceiling)) [
        | inl e ↦ rw e (rw append_assoc h)
        | inr e ↦ rw e (drop-IsAscending r.items i is h)
      ])

-- The packed items stand in ascending order of priority number: those of the system bucket first,
-- then conversation, memory, rag and tools, and those of any other bucket last.
pub pack-IsAscending :
    (buckets : Dict (List ContextItem)) (ceiling : ℕ) → IsAscending (pack buckets ceiling).items
unfolding pack
pack-IsAscending buckets ceiling =
    place_all-IsAscending ceiling (in_order buckets) nothing_packed (in_order-IsAscending buckets)
