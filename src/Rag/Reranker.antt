-- ===== src/Rag/Reranker.antt =====
-- src/athenai/rag/reranker.py, with the chunk type of retriever.py.
use athena_ai.Prelude.{
  ℕ, zero, suc, ◌≡◌, refl, arith, [], ◌∷◌, String, Text, Option, none, some, List, length, take,
}
use athena_ai.Prelude.Dict.{Dict}
use athena_ai.Prelude.Floats.{Floats, FloatLaws}
use athena_ai.Prelude.Sorting.{sorted_desc, IsBestOf, take-IsBestOf, length-sorted_desc}
use athena_ai.Core.Json.{Json}

pub record RetrievedChunk (Float : Type 0) : Type 0 where
  pub chunk_id : String
  pub document_id : String
  pub content : Text
  pub chunk_index : ℕ
  pub score : Float
  pub metadata : Dict Json

-- how many chunks are asked for, of `n`
abbrev pub limit_of : Option ℕ → ℕ → ℕ
limit_of none n = n
limit_of (some k) n = k

module _ (R : Floats) where
  open R use {Float, le}

  -- `CosineReranker.rerank`; the query's embedding is not read
  unfoldable pub rerank :
      List Float → List (RetrievedChunk Float) → Option ℕ → List (RetrievedChunk Float)
  rerank query_embedding chunks none = sorted_desc le (λ c. c.score) chunks
  rerank query_embedding chunks (some top_k) = take top_k (sorted_desc le (λ c. c.score) chunks)

take-length : {A : Type 0} (xs : List A) (n : ℕ) → length xs ≡ n → take n xs ≡ xs
take-length [] zero e = refl
take-length [] (suc n) e = refl
take-length (x ∷ xs) zero e = absurd (omega (arith, e))
take-length (x ∷ xs) (suc n) e = rw (take-length xs n (omega arith))

-- On floats with the laws of finite doubles: the reranked chunks are a best part of those given, in
-- descending order of score, all of them without top_k and otherwise as many as it allows.
rerank-IsBestOf :
    (R : Floats) (laws : FloatLaws R) (query_embedding : List R.Float)
    (chunks : List (RetrievedChunk R.Float)) (top_k : Option ℕ)
    → IsBestOf R.le
        (λ (c : RetrievedChunk R.Float). c.score)
        laws.le_total
        laws.le_trans
        (limit_of top_k (length chunks))
        chunks
        (rerank R query_embedding chunks top_k)
unfolding rerank
rerank-IsBestOf R laws query_embedding chunks none =
    let order = sorted_desc R.le (λ (c : RetrievedChunk R.Float). c.score) chunks in
    let all : take (length chunks) order ≡ order = take-length order (length chunks) (
      length-sorted_desc R.le (λ (c : RetrievedChunk R.Float). c.score) laws.le_total laws.le_trans
        chunks) in
    rw all at (
      take-IsBestOf R.le (λ (c : RetrievedChunk R.Float). c.score) laws.le_total laws.le_trans
        (length chunks) chunks)
rerank-IsBestOf R laws query_embedding chunks (some k) =
    take-IsBestOf R.le (λ (c : RetrievedChunk R.Float). c.score) laws.le_total laws.le_trans k
      chunks
