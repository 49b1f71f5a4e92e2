-- ===== src/Rag/Loader.antt =====
-- src/athenai/rag/loader.py. The loader acts on the table and on a world `W`, on which the embedder
-- acts. The ids that `uuid4` chooses and the time are arguments of each call.
pub mod Ids
pub mod Repeats
pub mod Replacement
pub mod Coroutine
pub mod Storable
pub mod Races
use athena_ai.Prelude.{ℕ, ltb, String, Text, Bool, List, [], ◌∷◌, map, length, if◌then◌else◌}
use athena_ai.Prelude.Dict.{Dict}
use athena_ai.Core.Errors.{Result, ok, err}
use athena_ai.Core.Json.{Json}
use athena_ai.Rag.Parser.{ParsedDocument, parse}
use athena_ai.Rag.Chunker.{Chunk, SlidingWindowChunker, chunk}
use athena_ai.Rag.Retriever.{Row, count_by_document, delete_document, store_chunks}

-- what a call brings from outside
pub record Call (Float : Type 0) : Type 0 where
  pub new_id : ℕ → String
  pub now : Float

-- the parts that are injected into a loader
pub record DocumentLoader (Float W : Type 0) : Type 0 where
  pub chunker : SlidingWindowChunker
  pub embed : List Text → W → Result (List (List Float)) × W
  -- what the database of the retriever refuses
  pub refuses : Row Float → Bool

-- the table and the world
abbrev pub Store : Type 0 → Type 0 → Type 0
Store Float W = List (Row Float) × W

-- the number of chunks, if they were stored
abbrev pub stored_count : ℕ → Result (Unit {0}) → Result ℕ
stored_count n (ok u) = ok n
stored_count n (err e) = err e

module _ {Float W : Type 0} where
  unfoldable pub store_embedded :
      (Row Float → Bool)
      → Float
      → List Chunk
      → Result (List (List Float))
      → Store Float W
      → Result ℕ × Store Float W
  store_embedded refuses now chunks (err e) (rows, w) = (err e, (rows, w))
  store_embedded refuses now chunks (ok embeddings) (rows, w) =
      let (stored, rows') = store_chunks refuses now chunks embeddings rows in
      (stored_count (length chunks) stored, (rows', w))

  module _ (loader : DocumentLoader Float W) (call : Call Float) where
    unfoldable pub embed_and_store : List Chunk → Store Float W → Result ℕ × Store Float W
    unfolding store_embedded
    embed_and_store [] s = (ok 0, s)
    embed_and_store (c ∷ cs) (rows, w) =
        let (embeddings, w') = loader.embed (map (λ (k : Chunk). k.content) (c ∷ cs)) w in
        store_embedded loader.refuses call.now (c ∷ cs) embeddings (rows, w')

    unfoldable pub ingest_parsed : Result ParsedDocument → Store Float W → Result ℕ × Store Float W
    unfolding embed_and_store
    ingest_parsed (err e) s = (err e, s)
    ingest_parsed (ok document) s = embed_and_store (chunk call.new_id loader.chunker document) s

    -- `DocumentLoader.ingest`
    unfoldable pub ingest :
        Text → String → String → Dict Json → Store Float W → Result ℕ × Store Float W
    unfolding ingest_parsed
    ingest content document_id source metadata s =
        let existing = count_by_document document_id s.0 in
        if ltb 0 existing
        then (ok existing, s)
        else ingest_parsed (parse content document_id source metadata) s

    -- `DocumentLoader.reingest`
    unfoldable pub reingest :
        Text → String → String → Dict Json → Store Float W → Result ℕ × Store Float W
    unfolding ingest
    reingest content document_id source metadata (rows, w) =
        ingest content document_id source metadata (delete_document document_id rows, w)
