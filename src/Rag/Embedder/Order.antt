-- ===== src/Rag/Embedder/Order.antt =====
-- src/athenai/rag/embedder.py: the embeddings stand in the order of the texts, whatever the order of
-- the API's answers.
use mathlib.Core.List.{Permᴰ, map-append}
use athena_ai.Prelude.{
  ℕ, zero, suc, ◌+◌, codes, ◌≤◌, ◌<◌, ◌≡◌, ◌≢◌, refl, sym, ap, ◌∙◌, Text, Bool, true, false, List,
  [], ◌∷◌, ◌++◌, map, ◌==◌, nat_eq, leb, if◌then◌else◌, length, take, drop, take-append-drop,
  length-drop, arith,
}
use athena_ai.Prelude.Sorting.{sorted_desc, insert_desc}
use athena_ai.Core.Errors.{Result, ok, err, ◌>>=◌}
use athena_ai.Models.Wire.{Reply}
use athena_ai.Rag.Embedder.{
  CloudEmbedder, Item, Post, sorted_items, read_reply, embed_batch, extend, embed_from, embed,
}

abbrev ascending : ℕ → ℕ → Bool
ascending a b = leb b a

module _ {Vector : Type 0} where
  -- the items that the API owes, from an index on
  abbrev pub numbered : ℕ → List Vector → List (Item Vector)
  numbered i [] = []
  numbered i (v ∷ vs) = record { index = i; embedding = v } ∷ numbered (i + 1) vs

  abbrev index_of : Item Vector → ℕ
  index_of item = item.index

  -- how many items have a given index
  occurrences : ℕ → List (Item Vector) → ℕ
  occurrences k [] = 0
  occurrences k (x ∷ xs) = (if x.index == k then 1 else 0) + occurrences k xs

  place : Item Vector → List (Item Vector) → List (Item Vector)
  unfolding insert_desc
  place x items = insert_desc ascending index_of x items

  place_comm :
      (x y : Item Vector) (items : List (Item Vector))
      → x.index ≢ y.index
      → place x (place y items) ≡ place y (place x items)
  unfolding place
  place_comm x y [] differ = ground arith
  place_comm x y (z ∷ zs) differ = ground (arith, place_comm x y zs differ)

  occurrences-Permᴰ :
      (k : ℕ) {xs ys : List (Item Vector)} → Permᴰ xs ys → occurrences k xs ≡ occurrences k ys
  unfolding occurrences
  occurrences-Permᴰ k Permᴰ.nil = refl
  occurrences-Permᴰ k (Permᴰ.cons {a = a} {b = b} e p) =
      ground (arith, ap index_of e, occurrences-Permᴰ k p)
  occurrences-Permᴰ k (Permᴰ.swap {a = a} {b = b} {a' = c} {b' = d} {l = l} e e') =
      ground (arith, ap index_of e, ap index_of e')
  occurrences-Permᴰ k (Permᴰ.trans p q) = occurrences-Permᴰ k p ∙ occurrences-Permᴰ k q

  -- two arrangements of items with different indices are sorted alike
  sorted-Permᴰ :
      {xs ys : List (Item Vector)}
      → Permᴰ xs ys
      → ((k : ℕ) → occurrences k xs ≤ 1)
      → sorted_items xs ≡ sorted_items ys
  unfolding sorted_items sorted_desc occurrences place
  sorted-Permᴰ Permᴰ.nil once = refl
  sorted-Permᴰ (Permᴰ.cons {a = a} {b = b} {l₁ = l} {l₂ = m} e p) once =
      let rest : sorted_items l ≡ sorted_items m = sorted-Permᴰ p (λ k. ground (arith, once k)) in
      rw (e, rest) refl
  sorted-Permᴰ (Permᴰ.swap {a = a} {b = b} {a' = c} {b' = d} {l = l} e e') once =
      let differ : a.index ≢ b.index = λ h. ground (arith, once a.index) in
      rw (sym e, sym e') (place_comm a b (sorted_items l) differ)
  sorted-Permᴰ (Permᴰ.trans p q) once =
      sorted-Permᴰ p once ∙ sorted-Permᴰ q (λ k. omega (arith, occurrences-Permᴰ k p, once k))

  sorted-numbered : (i : ℕ) (vs : List Vector) → sorted_items (numbered i vs) ≡ numbered i vs
  unfolding sorted_items sorted_desc insert_desc
  sorted-numbered i [] = refl
  sorted-numbered i (v ∷ []) = refl
  sorted-numbered i (v ∷ u ∷ us) =
      let rest : sorted_items (numbered (i + 1) (u ∷ us)) ≡ numbered (i + 1) (u ∷ us) =
        sorted-numbered (i + 1) (u ∷ us) in
      let low : leb i (i + 1) ≡ true = ground arith in
      ap (insert_desc ascending index_of (record { index = i; embedding = v })) rest ∙ rw low refl

  occurrences-numbered :
      (k i : ℕ) (vs : List Vector)
      → (occurrences k (numbered i vs) ≤ 1) × (k < i → occurrences k (numbered i vs) ≡ 0)
  unfolding occurrences
  occurrences-numbered k i [] = (omega arith, λ h. refl)
  occurrences-numbered k i (v ∷ vs) =
      let (most, none_below) = occurrences-numbered k (i + 1) vs in ground (arith, most, none_below)

  embeddings-numbered :
      (i : ℕ) (vs : List Vector) → map (λ (item : Item Vector). item.embedding) (numbered i vs) ≡ vs
  embeddings-numbered i [] = refl
  embeddings-numbered i (v ∷ vs) = rw (embeddings-numbered (i + 1) vs)

extend-ok :
    {Vector W : Type 0} (post : Post Vector W) (m : CloudEmbedder) (r : Result (List Vector) × W)
    (rest : W → Result (List Vector) × W) {vs us : List Vector}
    → r.0 ≡ ok vs
    → ((w : W) → (rest w).0 ≡ ok us)
    → (extend post m r rest).0 ≡ ok (vs ++ us)
extend-ok post m (err e, w) rest first others = cc
extend-ok post m (ok v, w) rest {us = us} first others =
    rw (others w) (ap (λ r. r >>= λ a. ok (a ++ us)) first)

-- an API that answers every batch with 200 and one item for each text, under the index of the text in
-- the batch, in any order
module _ {Vector W : Type 0} (post : Post Vector W) (m : CloudEmbedder) (vector : Text → Vector)
    (answers : (url : Text) (texts : List Text) (w : W)
      → (reply : Reply (List (Item Vector))) × (items : List (Item Vector)) × ((post url m texts
            w).0
          ≡ ok reply)
        × (reply.status_code ≡ 200)
        × (reply.json ≡ ok items)
        × Permᴰ items (numbered 0 (map vector texts))) where
  embed_batch-order :
      (texts : List Text) (w : W) → (embed_batch post m texts w).0 ≡ ok (map vector texts)
  unfolding embed_batch read_reply
  embed_batch-order texts w =
      let (reply, items, sent, fine, body, arranged) =
        answers (m.base_url ++ codes "/v1/embeddings") texts w in
      let order : sorted_items items ≡ numbered 0 (map vector texts) =
        sorted-Permᴰ arranged (λ k.
          omega
            (arith, occurrences-Permᴰ k arranged, (occurrences-numbered k 0 (map vector texts)).0))
        ∙ sorted-numbered 0 (map vector texts) in
      rw (sent, fine, body, order) (ap ok (embeddings-numbered 0 (map vector texts)))

  embed_from-order :
      (fuel : ℕ) (texts : List Text) (w : W)
      → 0 < m.batch_size
      → length texts ≤ fuel
      → (embed_from post m fuel texts w).0 ≡ ok (map vector texts)
  unfolding embed_from
  embed_from-order zero [] w positive enough = refl
  embed_from-order zero (t ∷ ts) w positive enough = absurd (omega (arith, enough))
  embed_from-order (suc fuel) [] w positive enough = refl
  embed_from-order (suc fuel) (t ∷ ts) w positive enough =
      let b = m.batch_size in
      let all : map vector (take b (t ∷ ts)) ++ map vector (drop b (t ∷ ts)) ≡ map vector (t ∷ ts) =
        sym (map-append vector (take b (t ∷ ts)) (drop b (t ∷ ts)))
        ∙ ap (map vector) (take-append-drop b (t ∷ ts)) in
      extend-ok post m _ (embed_from post m fuel (drop b (t ∷ ts)))
        (embed_batch-order (take b (t ∷ ts)) w)
        (λ w'.
          embed_from-order fuel (drop b (t ∷ ts)) w' positive
            (omega (arith, length-drop b (t ∷ ts), enough)))
      ∙ ap ok all

  -- If the API answers every batch with 200 and one item for each text, under the index of the text
  -- in the batch and in any order, and the batch size is positive, then the embeddings come in the
  -- order of the texts, however many batches they take.
  pub embed-order :
      (texts : List Text) (w : W)
      → 0 < m.batch_size
      → (embed post m texts w).0 ≡ ok (map vector texts)
  unfolding embed
  embed-order [] w positive = refl
  embed-order (t ∷ ts) w positive =
      let some_size : (m.batch_size == 0) ≡ false = ground arith in
      rw some_size (embed_from-order (length (t ∷ ts)) (t ∷ ts) w positive (omega arith))
