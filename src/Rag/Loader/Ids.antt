-- ===== src/Rag/Loader/Ids.antt =====
-- The ids of the chunks that src/athenai/rag/chunker.py makes.
use athena_ai.Prelude.{
  ℕ, zero, suc, ◌+◌, ◌*◌, ◌-◌, String, Text, Bool, true, false, List, [], ◌∷◌, refl, length, leb,
  if◌then◌else◌,
}
use athena_ai.Prelude.Texts.{strip}
use athena_ai.Rag.Parser.{ParsedDocument}
use athena_ai.Rag.Chunker.{
  Chunk, SlidingWindowChunker, chunk, chunks_from, emit, window_end, slice, chars_per_token,
}
use athena_ai.Rag.Retriever.Storing.{AreNumbered}

module _ (new_id : ℕ → String) (document : ParsedDocument) (chunk_chars step : ℕ) where
  emit-AreNumbered :
      (index start end : ℕ) (content : Text) (rest : ℕ → List Chunk)
      → ((i : ℕ) → AreNumbered new_id document.document_id i (rest i))
      → AreNumbered new_id document.document_id index
          (emit new_id document chunk_chars step index start end content rest)
  unfolding emit
  emit-AreNumbered index start end [] rest h = h index
  emit-AreNumbered index start end (c ∷ cs) rest h = (refl, refl, h (index + 1))

  cut_off-AreNumbered :
      (document_id : String) (ended : Bool) (i : ℕ) (cs : List Chunk)
      → AreNumbered new_id document_id i cs
      → AreNumbered new_id document_id i (if ended then [] else cs)
  cut_off-AreNumbered d true i cs h = tt
  cut_off-AreNumbered d false i cs h = h

  chunks_from-AreNumbered :
      (fuel start index : ℕ)
      → AreNumbered new_id document.document_id index
          (chunks_from new_id document chunk_chars step fuel start index)
  unfolding chunks_from
  chunks_from-AreNumbered zero start index = tt
  chunks_from-AreNumbered (suc fuel) start index =
      let d = document.document_id in
      let text = document.content in
      let end = window_end chunk_chars text start in
      let ended = leb (length text) end in
      let rest = λ (i : ℕ).
        if ended then [] else chunks_from new_id document chunk_chars step fuel (start + step) i in
      cut_off-AreNumbered d (leb (length text) start) index _ (
        emit-AreNumbered index start end (strip (slice text start end)) rest
          (λ i. cut_off-AreNumbered d ended i _ (chunks_from-AreNumbered fuel (start + step) i)))

-- the chunks of a document are numbered from 0
pub chunk-AreNumbered :
    (new_id : ℕ → String) (c : SlidingWindowChunker) (document : ParsedDocument)
    → AreNumbered new_id document.document_id 0 (chunk new_id c document)
unfolding chunk
chunk-AreNumbered new_id c document =
    chunks_from-AreNumbered new_id document (c.chunk_size * chars_per_token)
      (c.chunk_size * chars_per_token - c.overlap * chars_per_token) (length document.content) 0 0
