-- ===== src/Rag/Embedder.antt =====
-- src/athenai/rag/embedder.py. The API behind `client.post` is a parameter; a vector of the mock is
-- made by `sin` and `sqrt`, which are parameters too.
pub mod Order
use mathlib.Core.List.{reverse}
use athena_ai.Prelude.{
  ℕ, zero, suc, ◌+◌, Text, Option, none, some, codes, List, [], ◌∷◌, ◌++◌, map, ◌==◌, nat_eq, leb,
  if◌then◌else◌, length, take, drop,
}
use athena_ai.Prelude.Floats.{Floats}
use athena_ai.Prelude.Sorting.{sorted_desc}
use athena_ai.Core.Errors.{Result, ok, err, ◌>>=◌, athena, embedding_error, value_error, type_error}
use athena_ai.Models.Wire.{Reply}

-- `CloudEmbedder.__init__`; the dimensions are read by no method
pub record CloudEmbedder : Type 0 where
  pub api_key : Text
  pub model : Text
  pub base_url : Text
  pub batch_size : ℕ

strip_slashes : Text → Text
strip_slashes [] = []
strip_slashes (c ∷ cs) = if c == 47 then strip_slashes cs else c ∷ cs

-- the call of the constructor with keywords, where `api_key` may be missing
unfoldable pub new : Option Text → Text → Result CloudEmbedder
unfolding strip_slashes
new none base_url = err type_error
new (some api_key) base_url = ok (record {
  api_key = api_key;
  model = codes "text-embedding-3-small";
  base_url = reverse (strip_slashes (reverse base_url));
  batch_size = 96;
})

-- an entry of `data["data"]`
pub record Item (Vector : Type 0) : Type 0 where
  pub index : ℕ
  pub embedding : Vector

-- `client.post(url, json=payload)`, which may raise
abbrev pub Post : Type 0 → Type 0 → Type 0
Post Vector W = Text → CloudEmbedder → List Text → W → Result (Reply (List (Item Vector))) × W

module _ {Vector : Type 0} where
  -- `sorted(data["data"], key=lambda x: x["index"])`
  unfoldable pub sorted_items : List (Item Vector) → List (Item Vector)
  sorted_items items = sorted_desc (λ a b. leb b a) (λ item. item.index) items

  -- what `_embed_batch` makes of a response
  unfoldable pub read_reply : Reply (List (Item Vector)) → Result (List Vector)
  unfolding sorted_items
  read_reply reply =
      if reply.status_code == 200
      then reply.json
        >>= (λ items. ok (map (λ (item : Item Vector). item.embedding) (sorted_items items)))
      else err (athena embedding_error)

module _ {Vector W : Type 0} (post : Post Vector W) (m : CloudEmbedder) where
  -- `CloudEmbedder._embed_batch`
  unfoldable pub embed_batch : List Text → W → Result (List Vector) × W
  unfolding read_reply
  embed_batch texts w =
      let (sent, w') = post (m.base_url ++ codes "/v1/embeddings") m texts w in
      (sent >>= read_reply, w')

  -- `all_embeddings.extend(result)`, and the rest of the loop
  abbrev pub extend :
      Result (List Vector) × W → (W → Result (List Vector) × W) → Result (List Vector) × W
  extend (err e, w) rest = (err e, w)
  extend (ok vectors, w) rest = let (more, w') = rest w in (more >>= (λ vs. ok (vectors ++ vs)), w')

  -- the loop, on fuel for its rounds
  unfoldable pub embed_from : ℕ → List Text → W → Result (List Vector) × W
  unfolding embed_batch
  embed_from zero texts w = (ok [], w)
  embed_from (suc fuel) [] w = (ok [], w)
  embed_from (suc fuel) (t ∷ ts) w =
      extend (embed_batch (take m.batch_size (t ∷ ts)) w)
        (embed_from fuel (drop m.batch_size (t ∷ ts)))

  -- `CloudEmbedder.embed`; `range` refuses a step of zero
  unfoldable pub embed : List Text → W → Result (List Vector) × W
  unfolding embed_from
  embed [] w = (ok [], w)
  embed (t ∷ ts) w =
      if m.batch_size == 0 then (err value_error, w) else embed_from (length (t ∷ ts)) (t ∷ ts) w

module _ (R : Floats) (sin sqrt : R.Float → R.Float) where
  code_sum : Text → ℕ
  code_sum [] = 0
  code_sum (c ∷ cs) = c + code_sum cs

  sum_squares : R.Float → List R.Float → R.Float
  sum_squares total [] = total
  sum_squares total (x ∷ xs) = sum_squares (R.add total (R.mul x x)) xs

  base_from : R.Float → ℕ → ℕ → List R.Float
  base_from seed i zero = []
  base_from seed i (suc n) =
      sin (R.add seed (R.mul (R.of_ℕ i) (R.decimal 1 2))) ∷ base_from seed (i + 1) n

  -- `MockEmbedder._make_embedding`
  unfoldable pub make_embedding : ℕ → Text → List R.Float
  unfolding code_sum sum_squares base_from
  make_embedding dimensions text =
      let base = base_from (R.of_ℕ (code_sum text)) 0 dimensions in
      let magnitude = sqrt (sum_squares (R.of_ℕ 0) base) in map (λ x. R.div x magnitude) base

  -- `MockEmbedder.embed`
  unfoldable pub mock_embed : {W : Type 0} → ℕ → List Text → W → Result (List (List R.Float)) × W
  unfolding make_embedding
  mock_embed dimensions texts w = (ok (map (make_embedding dimensions) texts), w)
